-- ===== src/Auth/CallerJwt/Validated.antt =====
-- auth/caller_jwt.py, `validate`: what the claims say of the token they come from.
use autobench.Prelude.{
  ℕ, String, true, Option, none, some, ◌≡◌, refl, any, ◌==◌, truthy, if◌then◌else◌, Bool-cases, inl,
  inr,
}
use autobench.Prelude.Json.{Json, Fields, null, bool, number, str, array, object, lookup}
use autobench.Prelude.Dict.{get}
use autobench.Prelude.Http.{Web}
use autobench.Models.Config.{InstanceConfig}
use autobench.Auth.{Checked, accepted, rejected, unreachable, broken, ◌>>=◌, foreign, is_text}
use autobench.Auth.Discovery.{KeycloakEndpoints, endpoints_for}
use autobench.Auth.Jwks.{Keys, Cached, get_key}
use autobench.Auth.Jwks.Served.{OnAccepted, Serves, IsServed, Given, get_key-IsServed}
use autobench.Auth.CallerJwt.{
  PyJwt, Header, allowed_algs, check_alg, check_kid, read_header, read_claims, validate_with,
  validate_read, validate,
}

module _ (jwt : PyJwt) (P : String → Keys → Type 0) where
  abbrev repr_text : String → String
  repr_text text = jwt.repr (str text)

  -- The claims come from a token that is verified with a key of a document of the instance's own url, by
  -- an allowed algorithm that the token's header names, and they name the instance.
  pub record IsValidated (token : String) (instance_config : InstanceConfig) (claims : Fields)
      : Type 0 where
    pub header : Header
    pub alg : String
    pub kid : String
    pub endpoints : KeycloakEndpoints
    pub keys : Keys
    pub jwk : Fields
    pub has_header : jwt.unverified_header token ≡ some header
    pub has_alg : header.alg ≡ some (str alg)
    pub has_kid : header.kid ≡ some kid
    pub is_allowed : any (λ a. a == alg) allowed_algs ≡ true
    pub has_endpoints : endpoints_for repr_text instance_config ≡ accepted endpoints
    pub is_served : P endpoints.jwks_url keys
    pub has_key : get kid keys ≡ some jwk
    pub is_verified : jwt.verify token jwk alg ≡ some claims
    pub names_instance : is_text instance_config.iss (lookup "iss" claims) ≡ true

  not_foreign : {A : Type 0} (c : Checked A) (a : A) → foreign c ≡ accepted a → c ≡ accepted a
  not_foreign (accepted a) b h = h
  not_foreign (rejected _) b h = cc
  not_foreign (unreachable _) b h = cc
  not_foreign (broken _) b h = cc

  -- What the header gives.
  record IsRead (token : String) (read : String × String) : Type 0 where
    header : Header
    has_header : jwt.unverified_header token ≡ some header
    has_alg : header.alg ≡ some (str read.0)
    has_kid : header.kid ≡ some read.1
    is_allowed : any (λ a. a == read.0) allowed_algs ≡ true

  check_alg_lem :
      (alg : Option Json)
      → OnAccepted
          (λ a. (alg ≡ some (str a)) × (any (λ b. b == a) allowed_algs ≡ true))
          (check_alg jwt alg)
  unfolding check_alg
  check_alg_lem none = tt
  check_alg_lem (some null) = tt
  check_alg_lem (some (bool b)) = tt
  check_alg_lem (some (number n)) = tt
  check_alg_lem (some (array items)) = tt
  check_alg_lem (some (object fields)) = tt
  check_alg_lem (some (str alg)) = elim (Bool-cases (any (λ a. a == alg) allowed_algs)) [
    | inl e ↦ rw e (refl, e)
    | inr e ↦ rw e tt
  ]

  check_kid_lem : (kid : Option String) → OnAccepted (λ k. kid ≡ some k) (check_kid jwt kid)
  unfolding check_kid
  check_kid_lem none = tt
  check_kid_lem (some kid) = elim (Bool-cases (truthy kid)) [ inl e ↦ rw e refl | inr e ↦ rw e tt ]

  read_header_lem : (token : String) → OnAccepted (IsRead token) (read_header jwt token)
  unfolding read_header
  read_header_lem token = go (jwt.unverified_header token) refl
    where
      kid_read :
          (header : Header) (alg : String) (kid : Checked String)
          → jwt.unverified_header token ≡ some header
          → (header.alg ≡ some (str alg)) × (any (λ b. b == alg) allowed_algs ≡ true)
          → OnAccepted (λ k. header.kid ≡ some k) kid
          → OnAccepted (IsRead token) (kid >>= λ k. accepted (alg, k))
      kid_read header alg (accepted kid) e (ha, allowed) hk = record {
        header = header;
        has_header = e;
        has_alg = ha;
        has_kid = hk;
        is_allowed = allowed;
      }
      kid_read header alg (rejected _) e ha hk = tt
      kid_read header alg (unreachable _) e ha hk = tt
      kid_read header alg (broken _) e ha hk = tt

      alg_read :
          (header : Header) (alg : Checked String)
          → jwt.unverified_header token ≡ some header
          → OnAccepted
              (λ a. (header.alg ≡ some (str a)) × (any (λ b. b == a) allowed_algs ≡ true))
              alg
          → OnAccepted
              (IsRead token)
              (alg >>= λ a. check_kid jwt header.kid >>= λ k. accepted (a, k))
      alg_read header (accepted alg) e ha =
          kid_read header alg (check_kid jwt header.kid) e ha (check_kid_lem header.kid)
      alg_read header (rejected _) e ha = tt
      alg_read header (unreachable _) e ha = tt
      alg_read header (broken _) e ha = tt

      go :
          (o : Option Header)
          → jwt.unverified_header token ≡ o
          → OnAccepted (IsRead token) (elim o [
            | none ↦ rejected "malformed JWT header"
            | some header ↦
                check_alg jwt header.alg >>= λ a. check_kid jwt header.kid >>= λ k. accepted (a, k)
          ])
      go none e = tt
      go (some header) e = alg_read header (check_alg jwt header.alg) e (check_alg_lem header.alg)

  module _ (token : String) (instance_config : InstanceConfig) where
    -- What the verified claims meet.
    abbrev Verified : String → Fields → Fields → Type 0
    Verified alg jwk claims =
        (jwt.verify token jwk alg ≡ some claims)
        × (is_text instance_config.iss (lookup "iss" claims) ≡ true)

    read_claims_lem :
        (alg kid : String) (jwk : Fields)
        → OnAccepted (Verified alg jwk) (read_claims jwt token instance_config alg kid (some jwk))
    unfolding read_claims
    read_claims_lem alg kid jwk = go (jwt.verify token jwk alg) refl
      where
        go :
            (o : Option Fields)
            → jwt.verify token jwk alg ≡ o
            → OnAccepted (Verified alg jwk) (elim o [
              | none ↦ rejected "signature validation failed"
              | some claims ↦
                  if is_text instance_config.iss (lookup "iss" claims)
                  then accepted claims
                  else rejected "signed iss does not match selected instance"
            ])
        go none e = tt
        go (some claims) e = elim (Bool-cases (is_text instance_config.iss (lookup "iss" claims))) [
          | inl named ↦ rw named (e, named)
          | inr other ↦ rw other tt
        ]

    claims_read :
        (read : String × String) (endpoints : KeycloakEndpoints) (key : Checked (Option Fields))
        → IsRead token read
        → endpoints_for repr_text instance_config ≡ accepted endpoints
        → OnAccepted (Given P endpoints.jwks_url read.1) key
        → OnAccepted
            (IsValidated token instance_config)
            (key >>= read_claims jwt token instance_config read.0 read.1)
    unfolding read_claims
    claims_read (alg, kid) endpoints (accepted none) r e given = tt
    claims_read (alg, kid) endpoints (accepted (some jwk)) r e (keys, served, found) =
        go (read_claims jwt token instance_config alg kid (some jwk)) (read_claims_lem alg kid jwk)
      where
        go :
            (c : Checked Fields)
            → OnAccepted (Verified alg jwk) c
            → OnAccepted (IsValidated token instance_config) c
        go (accepted claims) (verified, named) = record {
          header = r.header;
          alg = alg;
          kid = kid;
          endpoints = endpoints;
          keys = keys;
          jwk = jwk;
          has_header = r.has_header;
          has_alg = r.has_alg;
          has_kid = r.has_kid;
          is_allowed = r.is_allowed;
          has_endpoints = e;
          is_served = served;
          has_key = found;
          is_verified = verified;
          names_instance = named;
        }
        go (rejected _) h = tt
        go (unreachable _) h = tt
        go (broken _) h = tt
    claims_read read endpoints (rejected _) r e given = tt
    claims_read read endpoints (unreachable _) r e given = tt
    claims_read read endpoints (broken _) r e given = tt

    module _ {W : Type 0} (web : Web W) (ttl : ℕ) (serves : Serves web ttl P) where
      abbrev Valid : Checked Fields × Cached W → Type 0
      Valid r = OnAccepted (IsValidated token instance_config) r.0 × IsServed web ttl P r.1.cache

      validate_with_lem :
          (read : String × String) (endpoints : Checked KeycloakEndpoints) (s : Cached W)
          → IsRead token read
          → foreign (endpoints_for repr_text instance_config) ≡ endpoints
          → IsServed web ttl P s.cache
          → Valid (validate_with jwt web ttl token instance_config read endpoints s)
      unfolding validate_with
      validate_with_lem (alg, kid) (accepted endpoints) s r e served =
          let (given, kept) = get_key-IsServed web ttl P endpoints.jwks_url kid s serves served in
          (
            claims_read (alg, kid) endpoints (get_key web ttl endpoints.jwks_url kid s).0 r
                (not_foreign (endpoints_for repr_text instance_config) endpoints e) given,
            kept,
          )
      validate_with_lem read (rejected _) s r e served = (tt, served)
      validate_with_lem read (unreachable _) s r e served = (tt, served)
      validate_with_lem read (broken _) s r e served = (tt, served)

      validate_read_lem :
          (read : Checked (String × String)) (s : Cached W)
          → OnAccepted (IsRead token) read
          → IsServed web ttl P s.cache
          → Valid (validate_read jwt web ttl token instance_config read s)
      unfolding validate_read
      validate_read_lem (accepted read) s r served =
          validate_with_lem read (foreign (endpoints_for repr_text instance_config)) s r refl served
      validate_read_lem (rejected _) s r served = (tt, served)
      validate_read_lem (unreachable _) s r served = (tt, served)
      validate_read_lem (broken _) s r served = (tt, served)

      pub validate-IsValidated :
          (s : Cached W)
          → IsServed web ttl P s.cache
          → Valid (validate jwt web ttl token instance_config s)
      unfolding validate
      validate-IsValidated s served =
          validate_read_lem (read_header jwt token) s (read_header_lem token) served
