-- ===== src/Auth/Access/Bound.antt =====
-- deps.py, `bound_rossoctl_client`: where a client's address and token come from.
use autobench.Prelude.{ℕ, String, Option, ◌≡◌, refl}
use autobench.Prelude.Text.{rstrip}
use autobench.Prelude.Json.{Json, str}
use autobench.Prelude.Dict.{Dict}
use autobench.Prelude.Http.{Web}
use autobench.Models.Config.{InstanceConfig}
use autobench.Routes.Start.{Answer, ok, http_error, raised}
use autobench.Auth.{Checked, accepted, rejected, unreachable, broken}
use autobench.Auth.Jwks.{Cached}
use autobench.Auth.CallerJwt.{PyJwt}
use autobench.Auth.Login.{login}
use autobench.Auth.Access.{
  RequestContext, RossoctlClient, bearer, require_caller_jwt, caller, client_of, logged_in,
  bound_rossoctl_client,
}

module _ (jwt : PyJwt) {W : Type 0} (web : Web W) (ttl : ℕ) (registry : Dict InstanceConfig)
    (authorization : Option String) (s : Cached W) where
  abbrev pub login_to : InstanceConfig → W → Checked Json
  login_to instance_config w =
      (login jwt.is_zero web (λ text. jwt.repr (str text)) instance_config w).0

  -- The client of a caller whose token was let in: it speaks to the caller's instance, and with the token
  -- that logging in there gave in the world after the caller's check.
  pub record IsBound (c : RossoctlClient) : Type 0 where
    pub token : String
    pub ctx : RequestContext
    pub has_bearer : bearer authorization ≡ ok token
    pub admitted : (require_caller_jwt jwt web ttl registry token s).0 ≡ ok ctx
    pub speaks_to : c.base_url ≡ rstrip "/" ctx.instance_config.rossoctl_base_url
    pub minted :
        login_to ctx.instance_config (require_caller_jwt jwt web ttl registry token s).1.world
        ≡ accepted c.token

  abbrev pub OnOk : Answer RossoctlClient → Type 0
  OnOk (ok c) = IsBound c
  OnOk (http_error _ _) = Unit
  OnOk (raised _) = Unit

  of_login :
      (token : String) (ctx : RequestContext) (minted : Checked Json)
      → bearer authorization ≡ ok token
      → (require_caller_jwt jwt web ttl registry token s).0 ≡ ok ctx
      → login_to ctx.instance_config (require_caller_jwt jwt web ttl registry token s).1.world
        ≡ minted
      → OnOk (client_of ctx.instance_config minted)
  of_login token ctx (accepted service_token) b a m = record {
    token = token;
    ctx = ctx;
    has_bearer = b;
    admitted = a;
    speaks_to = refl;
    minted = m;
  }
  of_login token ctx (rejected _) b a m = tt
  of_login token ctx (unreachable _) b a m = tt
  of_login token ctx (broken _) b a m = tt

  of_context :
      (token : String) (answer : Answer RequestContext)
      → bearer authorization ≡ ok token
      → (require_caller_jwt jwt web ttl registry token s).0 ≡ answer
      → OnOk
          (logged_in jwt web ttl registry answer
            (require_caller_jwt jwt web ttl registry token s).1).0
  unfolding logged_in
  of_context token (ok ctx) b a =
      of_login token ctx
        (login_to ctx.instance_config (require_caller_jwt jwt web ttl registry token s).1.world) b a
        refl
  of_context token (http_error _ _) b a = tt
  of_context token (raised _) b a = tt

  of_bearer :
      (given : Answer String)
      → bearer authorization ≡ given
      → let r : Answer RequestContext × Cached W = (elim given [
        | ok token ↦ require_caller_jwt jwt web ttl registry token s
        | http_error status detail ↦ (http_error status detail, s)
        | raised text ↦ (raised text, s)
      ]) in
        OnOk (logged_in jwt web ttl registry r.0 r.1).0
  unfolding logged_in
  of_bearer (ok token) b =
      of_context token (require_caller_jwt jwt web ttl registry token s).0 b refl
  of_bearer (http_error _ _) b = tt
  of_bearer (raised _) b = tt

  -- A client is bound only for a bearer token that is let in; it speaks to the instance of the caller's
  -- context, and its token is what the Service's own login at this instance gave after the check.
  pub bound_rossoctl_client-IsBound :
      OnOk (bound_rossoctl_client jwt web ttl registry authorization s).0
  unfolding bound_rossoctl_client caller
  bound_rossoctl_client-IsBound = of_bearer (bearer authorization) refl
