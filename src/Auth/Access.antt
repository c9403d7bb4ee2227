-- ===== src/Auth/Access.antt =====
-- deps.py and context.py: what a handler learns of its caller, and the client that it is given.
pub mod Admitted
pub mod Bound
use Prim.Native.Char.{Char, code}
use autobench.Prelude.{
  ℕ, ◌+◌, String, ◌⧺◌, Bool, true, false, not, ◌&&◌, Option, none, some, eqb, leb, truthy,
  if◌then◌else◌,
}
use autobench.Prelude.Text.{strip, rstrip}
use autobench.Prelude.Json.{Json, Fields, str, array, object, lookup}
use autobench.Prelude.Dict.{Dict, get}
use autobench.Prelude.Http.{Web}
use autobench.Models.Config.{InstanceConfig}
use autobench.Routes.Start.{Answer, ok, http_error, raised}
use autobench.Auth.{Checked, accepted, rejected, unreachable, broken, is_text}
use autobench.Auth.Jwks.{Cached}
use autobench.Auth.CallerJwt.{PyJwt, read_unverified_iss, validate}
use autobench.Auth.Login.{login}

pub record RequestContext : Type 0 where
  pub instance_config : InstanceConfig
  pub claims : Fields

unfoldable pub preferred_username : RequestContext → Option Json
preferred_username ctx = lookup "preferred_username" ctx.claims

unfoldable pub is_benchmarker : RequestContext → Bool
unfolding preferred_username
is_benchmarker ctx = is_text "benchmarker" (preferred_username ctx)

-- Of the letters of "bearer " only the ASCII capitals have one of these as their small letter.
lower : ℕ → ℕ
lower c = if leb 65 c && leb c 90 then c + 32 else c

-- `text[len(prefix):]`, if `text.lower()` begins with the prefix
without_lower : String → String → Option String
unfolding lower
without_lower String.[] text = some text
without_lower (String.◌∷◌ p prefix) String.[] = none
without_lower (String.◌∷◌ p prefix) (String.◌∷◌ c text) =
    let rest = without_lower prefix text in if eqb (lower (code c)) (code p) then rest else none

-- `_bearer`
unfoldable pub bearer : Option String → Answer String
unfolding without_lower
bearer none = http_error 401 "missing bearer token"
bearer (some authorization) = elim (without_lower "bearer " authorization) [
  | none ↦ http_error 401 "missing bearer token"
  | some token ↦ ok (strip token)
]

-- `registry.get(iss)`: a claim that is no text is no key, or cannot be one.
abbrev pub instance_of : Json → Dict InstanceConfig → Checked (Option InstanceConfig)
instance_of (str iss) registry = accepted (get iss registry)
instance_of (array _) registry = broken "unhashable type"
instance_of (object _) registry = broken "unhashable type"
instance_of iss registry = accepted none

abbrev pub shown : (Json → String) → Json → String
shown repr (str text) = text
shown repr value = repr value

-- `except CallerTokenError as exc`
abbrev pub or_unauthorized : {A : Type 0} → Checked A → Answer A
or_unauthorized (accepted a) = ok a
or_unauthorized (rejected text) = http_error 401 text
or_unauthorized (unreachable text) = raised text
or_unauthorized (broken text) = raised text

context : InstanceConfig → Answer Fields → Answer RequestContext
context instance_config (ok claims) =
    ok (record { instance_config = instance_config; claims = claims })
context instance_config (http_error status detail) = http_error status detail
context instance_config (raised text) = raised text

unfoldable pub benchmarker_of : Answer RequestContext → Answer RequestContext
benchmarker_of (ok ctx) =
    if is_benchmarker ctx
    then ok ctx
    else http_error 403 "operation restricted to the benchmarker user"
benchmarker_of (http_error status detail) = http_error status detail
benchmarker_of (raised text) = raised text

-- What `RossoctlClient` keeps.
pub record RossoctlClient : Type 0 where
  pub base_url : String
  pub token : Json

abbrev pub client_of : InstanceConfig → Checked Json → Answer RossoctlClient
client_of instance_config (accepted token) =
    ok (record { base_url = rstrip "/" instance_config.rossoctl_base_url; token = token })
client_of instance_config (rejected text) = http_error 502 ("upstream login failed: " ⧺ text)
client_of instance_config (unreachable text) = raised text
client_of instance_config (broken text) = raised text

module _ (jwt : PyJwt) {W : Type 0} (web : Web W) (ttl : ℕ) (registry : Dict InstanceConfig) where
  -- With the instance that the registry has for the claim.
  require_instance :
      String → Json → Checked (Option InstanceConfig) → Cached W → Answer RequestContext × Cached W
  unfolding context
  require_instance token iss (accepted none) s =
      (http_error 403 ("issuer not in scope: " ⧺ shown jwt.repr iss), s)
  require_instance token iss (accepted (some instance_config)) s =
      let (claims, after) = validate jwt web ttl token instance_config s in
      (context instance_config (or_unauthorized claims), after)
  require_instance token iss (rejected text) s = (raised text, s)
  require_instance token iss (unreachable text) s = (raised text, s)
  require_instance token iss (broken text) s = (raised text, s)

  require_iss : String → Checked Json → Cached W → Answer RequestContext × Cached W
  unfolding require_instance
  require_iss token (accepted iss) s = require_instance token iss (instance_of iss registry) s
  require_iss token (rejected text) s = (http_error 401 text, s)
  require_iss token (unreachable text) s = (raised text, s)
  require_iss token (broken text) s = (raised text, s)

  unfoldable pub require_caller_jwt : String → Cached W → Answer RequestContext × Cached W
  unfolding require_iss
  require_caller_jwt token s = require_iss token (read_unverified_iss jwt token) s

  -- The dependency with the one it depends on.
  unfoldable pub caller : Option String → Cached W → Answer RequestContext × Cached W
  caller authorization s = elim (bearer authorization) [
    | ok token ↦ require_caller_jwt token s
    | http_error status detail ↦ (http_error status detail, s)
    | raised text ↦ (raised text, s)
  ]

  unfoldable pub require_benchmarker : Option String → Cached W → Answer RequestContext × Cached W
  require_benchmarker authorization s =
      let (answer, after) = caller authorization s in (benchmarker_of answer, after)

  unfoldable pub logged_in : Answer RequestContext → Cached W → Answer RossoctlClient × Cached W
  logged_in (ok ctx) s =
      let (token, world) =
        login jwt.is_zero web (λ text. jwt.repr (str text)) ctx.instance_config s.world in
      (client_of ctx.instance_config token, record s { world = world })
  logged_in (http_error status detail) s = (http_error status detail, s)
  logged_in (raised text) s = (raised text, s)

  unfoldable pub bound_rossoctl_client : Option String → Cached W → Answer RossoctlClient × Cached W
  unfolding logged_in
  bound_rossoctl_client authorization s =
      let (answer, after) = caller authorization s in logged_in answer after
