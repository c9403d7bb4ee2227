-- ===== src/Auth/Access/Admitted.antt =====
-- deps.py, `require_caller_jwt`: what a context says of the token it was made of.
use autobench.Prelude.{ℕ, String, Option, none, some, ◌≡◌, refl}
use autobench.Prelude.Json.{Json, Fields, null, bool, number, str, array, object}
use autobench.Prelude.Dict.{Dict, get}
use autobench.Prelude.Http.{Web}
use autobench.Models.Config.{InstanceConfig}
use autobench.Routes.Start.{Answer, ok, http_error, raised}
use autobench.Auth.{Checked, accepted, rejected, unreachable, broken}
use autobench.Auth.Jwks.{Keys, Cached}
use autobench.Auth.Jwks.Served.{OnAccepted, Serves, IsServed}
use autobench.Auth.CallerJwt.{PyJwt, read_unverified_iss, validate}
use autobench.Auth.Access.{
  RequestContext, or_unauthorized, context, require_instance, require_iss, require_caller_jwt,
}
use autobench.Auth.CallerJwt.Validated.{IsValidated, validate-IsValidated}

module _ (jwt : PyJwt) (P : String → Keys → Type 0) where
  module _ {W : Type 0} (web : Web W) (ttl : ℕ) (registry : Dict InstanceConfig)
      (serves : Serves web ttl P) (token : String) where
    -- The instance is the one that the registry has under the issuer that the token itself names.
    pub record IsAdmitted (ctx : RequestContext) : Type 0 where
      pub iss : String
      pub claimed : read_unverified_iss jwt token ≡ accepted (str iss)
      pub registered : get iss registry ≡ some ctx.instance_config
      pub validated : IsValidated jwt P token ctx.instance_config ctx.claims

    abbrev pub OnOk : Answer RequestContext → Type 0
    OnOk (ok ctx) = IsAdmitted ctx
    OnOk (http_error _ _) = Unit
    OnOk (raised _) = Unit

    abbrev pub Admits : Answer RequestContext × Cached W → Type 0
    Admits r = OnOk r.0 × IsServed web ttl P r.1.cache

    context_lem :
        (iss : String) (instance_config : InstanceConfig) (claims : Checked Fields)
        → read_unverified_iss jwt token ≡ accepted (str iss)
        → get iss registry ≡ some instance_config
        → OnAccepted (IsValidated jwt P token instance_config) claims
        → OnOk (context instance_config (or_unauthorized claims))
    unfolding context
    context_lem iss instance_config (accepted claims) e found valid = record {
      iss = iss;
      claimed = e;
      registered = found;
      validated = valid;
    }
    context_lem iss instance_config (rejected _) e found valid = tt
    context_lem iss instance_config (unreachable _) e found valid = tt
    context_lem iss instance_config (broken _) e found valid = tt

    registered_lem :
        (iss : String) (found : Option InstanceConfig) (s : Cached W)
        → read_unverified_iss jwt token ≡ accepted (str iss)
        → get iss registry ≡ found
        → IsServed web ttl P s.cache
        → Admits (require_instance jwt web ttl registry token (str iss) (accepted found) s)
    unfolding require_instance
    registered_lem iss none s e found served = (tt, served)
    registered_lem iss (some instance_config) s e found served =
        let (valid, kept) =
          validate-IsValidated jwt P token instance_config web ttl serves s served in
        (
          context_lem iss instance_config (validate jwt web ttl token instance_config s).0 e found
              valid,
          kept,
        )

    unverified_lem :
        (iss : Checked Json) (s : Cached W)
        → read_unverified_iss jwt token ≡ iss
        → IsServed web ttl P s.cache
        → Admits (require_iss jwt web ttl registry token iss s)
    unfolding require_iss
    unverified_lem (accepted (str iss)) s e served =
        registered_lem iss (get iss registry) s e refl served
    unverified_lem (accepted null) s e served = (tt, served)
    unverified_lem (accepted (bool _)) s e served = (tt, served)
    unverified_lem (accepted (number _)) s e served = (tt, served)
    unverified_lem (accepted (array _)) s e served = (tt, served)
    unverified_lem (accepted (object _)) s e served = (tt, served)
    unverified_lem (rejected _) s e served = (tt, served)
    unverified_lem (unreachable _) s e served = (tt, served)
    unverified_lem (broken _) s e served = (tt, served)

    -- If the servers' documents meet `P` and so do the cached ones, then a token that is let in names an
    -- issuer of the registry, whose instance the context holds; its header names an allowed algorithm
    -- and a key of a document that meets `P` for the url composed from this instance; the claims of the
    -- context are those that verifying the token with this key and algorithm gives, and their issuer is
    -- the instance's. Whatever the answer, the cached documents still meet `P`.
    pub require_caller_jwt-IsAdmitted :
        (s : Cached W)
        → IsServed web ttl P s.cache
        → Admits (require_caller_jwt jwt web ttl registry token s)
    unfolding require_caller_jwt
    require_caller_jwt-IsAdmitted s served =
        unverified_lem (read_unverified_iss jwt token) s refl served
