-- ===== src/Auth/CallerJwt.antt =====
-- auth/caller_jwt.py: reading and validating the JWT of a caller. PyJWT is an argument, with Python's
-- `repr` and the numerals that are 0.
pub mod Validated
use autobench.Prelude.{
  ℕ, String, ◌⧺◌, Bool, true, false, Option, none, some, List, [], ◌∷◌, any, ◌==◌, truthy,
  if◌then◌else◌,
}
use autobench.Prelude.Json.{Json, Fields, null, bool, number, str, array, object, lookup, truth}
use autobench.Prelude.Http.{Web}
use autobench.Models.Config.{InstanceConfig}
use autobench.Auth.{Checked, accepted, rejected, unreachable, broken, ◌>>=◌, foreign, is_text}
use autobench.Auth.Discovery.{KeycloakEndpoints, endpoints_for}
use autobench.Auth.Jwks.{Cached, get_key}

-- What a token's header has: PyJWT refuses a `kid` that is no text.
pub record Header : Type 0 where
  pub alg : Option Json
  pub kid : Option String

-- `PyJWT`: a `PyJWTError` is none. `verify token jwk alg` makes the signing key of the JWK, and decodes
-- the token with it and no other algorithm.
pub record PyJwt : Type 0 where
  pub unverified_claims : String → Option Fields
  pub unverified_header : String → Option Header
  pub verify : String → Fields → String → Option Fields
  pub repr : Json → String
  pub is_zero : String → Bool

abbrev pub allowed_algs : List String
allowed_algs =
    "RS256" ∷ "RS384" ∷ "RS512" ∷ "ES256" ∷ "ES384" ∷ "ES512" ∷ "PS256" ∷ "PS384" ∷ "PS512" ∷ []

module _ (jwt : PyJwt) where
  -- The claim `iss`, if it is true.
  iss_of : Option Json → Checked Json
  iss_of none = rejected "JWT has no iss claim"
  iss_of (some iss) =
      if truth jwt.is_zero iss then accepted iss else rejected "JWT has no iss claim"

  unfoldable pub read_unverified_iss : String → Checked Json
  unfolding iss_of
  read_unverified_iss token = elim (jwt.unverified_claims token) [
    | none ↦ rejected "malformed JWT"
    | some claims ↦ iss_of (lookup "iss" claims)
  ]

  disallowed : Option Json → Checked String
  disallowed none = rejected "disallowed or missing alg: None"
  disallowed (some (array _)) = broken "unhashable type"
  disallowed (some (object _)) = broken "unhashable type"
  disallowed (some alg) = rejected ("disallowed or missing alg: " ⧺ jwt.repr alg)

  -- `alg not in ALLOWED_ALGS`
  unfoldable pub check_alg : Option Json → Checked String
  unfolding disallowed
  check_alg (some (str alg)) =
      if any (λ a. a == alg) allowed_algs then accepted alg else disallowed (some (str alg))
  check_alg alg = disallowed alg

  unfoldable pub check_kid : Option String → Checked String
  check_kid none = rejected "JWT header has no kid"
  check_kid (some kid) = if truthy kid then accepted kid else rejected "JWT header has no kid"

  -- What `validate` reads of the header.
  unfoldable pub read_header : String → Checked (String × String)
  read_header token = elim (jwt.unverified_header token) [
    | none ↦ rejected "malformed JWT header"
    | some header ↦
        check_alg header.alg >>= λ alg. check_kid header.kid >>= λ kid. accepted (alg, kid)
  ]

  -- The claims, once the key is known.
  unfoldable pub read_claims :
      String → InstanceConfig → String → String → Option Fields → Checked Fields
  read_claims token instance_config alg kid none =
      rejected ("no JWKS key for kid " ⧺ jwt.repr (str kid))
  read_claims token instance_config alg kid (some jwk) = elim (jwt.verify token jwk alg) [
    | none ↦ rejected "signature validation failed"
    | some claims ↦
        if is_text instance_config.iss (lookup "iss" claims)
        then accepted claims
        else rejected "signed iss does not match selected instance"
  ]

  module _ {W : Type 0} (web : Web W) (ttl : ℕ) where
    -- From the endpoints on: the only part that reads the cache.
    unfoldable pub validate_with :
        String
        → InstanceConfig
        → String × String
        → Checked KeycloakEndpoints
        → Cached W
        → Checked Fields × Cached W
    validate_with token instance_config (alg, kid) (accepted endpoints) s =
        let (key, after) = get_key web ttl endpoints.jwks_url kid s in
        (key >>= read_claims token instance_config alg kid, after)
    validate_with token instance_config _ (rejected text) s = (rejected text, s)
    validate_with token instance_config _ (unreachable text) s = (unreachable text, s)
    validate_with token instance_config _ (broken text) s = (broken text, s)

    unfoldable pub validate_read :
        String → InstanceConfig → Checked (String × String) → Cached W → Checked Fields × Cached W
    validate_read token instance_config (accepted read) s =
        let endpoints = foreign (endpoints_for (λ text. jwt.repr (str text)) instance_config) in
        validate_with token instance_config read endpoints s
    validate_read token instance_config (rejected text) s = (rejected text, s)
    validate_read token instance_config (unreachable text) s = (unreachable text, s)
    validate_read token instance_config (broken text) s = (broken text, s)

    unfoldable pub validate : String → InstanceConfig → Cached W → Checked Fields × Cached W
    validate token instance_config s = validate_read token instance_config (read_header token) s
