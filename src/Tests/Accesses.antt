-- ===== src/Tests/Accesses.antt =====
-- Callers with a token, and the tokens of the Service.
use autobench.Prelude.{ℕ, String, false, none, some, [], ◌∷◌, ◌≡◌, refl, arith}
use autobench.Prelude.Dict.{get, put, Dict}
use autobench.Prelude.Json.{Fields, str, array, object, nil, cons, end, field, lookup}
use autobench.Prelude.Http.{Web, Response, answered}
use autobench.Models.Config.{InstanceConfig, MlflowConfig}
use autobench.Auth.{accepted, json_get}
use autobench.Auth.Jwks.{Keys, Cached, read_keys, usable, store, cached_or_read, get_keys, get_key}
use autobench.Auth.Jwks.Served.{Serves, IsServed}
use autobench.Auth.Jwks.Rotation.{Lacks, get_key-Lacks}
use autobench.Auth.CallerJwt.{PyJwt}
use autobench.Auth.Login.{Urls, mlflow_token}
use autobench.Auth.Access.{require_caller_jwt, bound_rossoctl_client}
use autobench.Auth.Access.Admitted.{Admits, require_caller_jwt-IsAdmitted}
use autobench.Auth.Access.Bound.{OnOk, bound_rossoctl_client-IsBound}
use autobench.Routes.Mlflow.{credential_mode}
use autobench.Routes.Mlflow.Modes.{token_by_mode, mlflow_token-credential_mode}
use autobench.Tests.Configs.{own, mlflow}

-- A server with one key, that also hands out tokens.
abbrev key : Fields
key = field "kid" (str "k1") (field "kty" (str "RSA") end)

abbrev served : Keys
served = ("k1", key) ∷ []

abbrev page : Response
page = record {
  status_code = 200;
  json = some (
      object
        (field "keys" (array (cons (object key) nil)) (field "access_token" (str "service") end)));
  text = "{}";
  location = "";
}

abbrev server : Web ℕ
server = record { send = λ request w. (answered page, w); monotonic = λ w. (w, w) }

abbrev claims : Fields
claims = field "iss" (str "https://sso/realms/team1") end

abbrev jwt : PyJwt
jwt = record {
  unverified_claims = λ token. some claims;
  unverified_header = λ token. some (record { alg = some (str "RS256"); kid = some "k1" });
  verify = λ token jwk alg. some claims;
  repr = λ value. "value";
  is_zero = λ numeral. false;
}

abbrev empty_cache : Cached ℕ
empty_cache = record { world = 5; cache = [] }

abbrev instances : Dict InstanceConfig
instances = ("https://sso/realms/team1", own) ∷ []

abbrev IsTheKeys : String → Keys → Type 0
IsTheKeys url keys = keys ≡ served

serves : Serves server 300 IsTheKeys
unfolding read_keys json_get lookup put
serves = record { at = λ url w. refl }

none-IsServed : IsServed server 300 IsTheKeys []
unfolding get
none-IsServed = record { at = λ url time keys e. absurd (ground arith) }

require_caller_jwt-IsAdmitted_example :
    Admits jwt IsTheKeys server 300 instances serves "token"
      (require_caller_jwt jwt server 300 instances "token" empty_cache)
require_caller_jwt-IsAdmitted_example =
    require_caller_jwt-IsAdmitted jwt IsTheKeys server 300 instances serves "token" empty_cache
      none-IsServed

missed :
    (after : Cached ℕ) × (get_key server 300 "https://sso/certs" "k2" empty_cache
      ≡ (accepted none, after))
unfolding get_key read_keys get_keys cached_or_read usable get store json_get lookup put
missed = (_, refl)

get_key-Lacks_example : Lacks server 300 "https://sso/certs" "k2" missed.0.world
get_key-Lacks_example =
    get_key-Lacks server 300 "https://sso/certs" "k2" empty_cache missed.0 missed.1

bound_rossoctl_client-IsBound_example :
    OnOk jwt server 300 instances
      (some "Bearer token")
      empty_cache
      (bound_rossoctl_client jwt server 300 instances (some "Bearer token") empty_cache).0
bound_rossoctl_client-IsBound_example =
    bound_rossoctl_client-IsBound jwt server 300 instances (some "Bearer token") empty_cache

abbrev pub urls : Urls
urls = record {
  hostname = λ url. some "mlflow.apps.example";
  fragment = λ url. "access_token=abc";
  basic = λ text. text;
}

abbrev with_password : MlflowConfig
with_password = record mlflow { username = some "bench"; password = some "pw" }

mlflow_token-credential_mode_example :
    mlflow_token urls server (λ numeral. false) with_password 5
    ≡ token_by_mode urls server (λ numeral. false) with_password (credential_mode with_password) 5
mlflow_token-credential_mode_example =
    mlflow_token-credential_mode urls server (λ numeral. false) with_password 5
