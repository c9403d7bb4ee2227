-- ===== src/Auth/Login.antt =====
-- auth/ropc.py and auth/mlflow.py: the tokens that the Service asks for. What the source takes from
-- urllib and base64 is an argument. A token is the JSON value of the answer.
use autobench.Prelude.{
  ℕ, String, ◌⧺◌, Bool, ◌&&◌, Option, none, some, List, [], ◌∷◌, any, eqb, is_set, truthy,
  if◌then◌else◌,
}
use autobench.Prelude.Text.{rstrip, split, partition_on, decimal}
use autobench.Prelude.Json.{Json, str, truth}
use autobench.Prelude.Dict.{Dict, get, put}
use autobench.Prelude.Http.{Web, Request, Method, Response}
use autobench.Models.Config.{InstanceConfig, ServiceCredential, MlflowConfig}
use autobench.Auth.{Checked, accepted, rejected, unreachable, broken, ◌>>=◌, when_sent, json_get}
use autobench.Auth.Discovery.{KeycloakEndpoints, endpoints_for}

abbrev pub form_headers : Dict String
form_headers = ("Content-Type", "application/x-www-form-urlencoded") ∷ []

abbrev pub post_form : String → Dict String → Request
post_form url form = record {
  method = Method.post;
  url = url;
  headers = form_headers;
  params = [];
  form = form;
  body = none;
}

unfoldable pub text_of : Option String → String
text_of none = "None"
text_of (some text) = text

-- `form`
unfoldable pub login_form : ServiceCredential → Dict String
login_form cred =
    let form : Dict String =
      ("grant_type", "password")
      ∷ ("client_id", cred.client_id)
      ∷ ("username", cred.username)
      ∷ ("password", cred.password)
      ∷ [] in
    elim cred.client_secret [
      | none ↦ form
      | some secret ↦ if truthy secret then put "client_secret" secret form else form
    ]

login_failed : KeycloakEndpoints → ℕ → String
login_failed endpoints status =
    "ROPC login failed (HTTP " ⧺ (decimal status ⧺ (") at " ⧺ endpoints.token_url))

unfoldable pub credentials_form : MlflowConfig → Dict String
unfolding text_of
credentials_form cfg =
    ("grant_type", "client_credentials")
    ∷ ("client_id", text_of cfg.client_id)
    ∷ ("client_secret", text_of cfg.client_secret)
    ∷ []

unfoldable pub token_failed : MlflowConfig → ℕ → String
unfolding text_of
token_failed cfg status =
    "MLflow token request failed (HTTP " ⧺ (decimal status ⧺ (") at " ⧺ text_of cfg.token_url))

-- A token that is not there or false is refused with a text.
abbrev pub true_token : (String → Bool) → String → Option Json → Checked Json
true_token is_zero missing none = rejected missing
true_token is_zero missing (some token) =
    if truth is_zero token then accepted token else rejected missing

module _ (is_zero : String → Bool) where
  -- The token of an answer; `failed` is the text for a status, and `missing` the text without a token.
  unfoldable pub read_token : (ℕ → String) → String → Response → Checked Json
  read_token failed missing response =
      if eqb response.status_code 200
      then json_get "access_token" response.json >>= true_token is_zero missing
      else rejected (failed response.status_code)

  abbrev ask : {W : Type 0} → Web W → Request → (Response → Checked Json) → W → Checked Json × W
  ask web request read w = let (sent, after) = web.send request w in (when_sent sent read, after)

  module _ {W : Type 0} (web : Web W) where
    login_at : ServiceCredential → Checked KeycloakEndpoints → W → Checked Json × W
    unfolding login_failed
    login_at cred (accepted endpoints) w =
        ask web (post_form endpoints.token_url (login_form cred))
          (read_token (login_failed endpoints) "ROPC login returned no access_token") w
    login_at cred (rejected text) w = (broken text, w)
    login_at cred (unreachable text) w = (unreachable text, w)
    login_at cred (broken text) w = (broken text, w)

    unfoldable pub login : (String → String) → InstanceConfig → W → Checked Json × W
    unfolding login_at
    login repr instance_config w =
        login_at instance_config.service_credential (endpoints_for repr instance_config) w

  module _ {W : Type 0} (web : Web W) where
    unfoldable pub client_credentials_token : MlflowConfig → W → Checked Json × W
    unfolding text_of credentials_form token_failed
    client_credentials_token cfg w =
        if is_set cfg.token_url && is_set cfg.client_id && is_set cfg.client_secret
        then ask web (post_form (text_of cfg.token_url) (credentials_form cfg))
            (read_token (token_failed cfg) "MLflow token request returned no access_token") w
        else (
          rejected "MLflow client-credentials not configured (token_url/client_id/client_secret)",
          w,
        )

-- `urlparse(url).hostname`, `urlsplit(url).fragment` and the `Basic` form of a name and a password.
pub record Urls : Type 0 where
  pub hostname : String → Option String
  pub fragment : String → String
  pub basic : String → String

module _ (urls : Urls) where
  -- The text after the first label of the host.
  apps_domain : String → String
  apps_domain url = elim (urls.hostname url) [
    | none ↦ ""
    | some host ↦ elim (partition_on "." host) [ none ↦ "" | some (label, domain) ↦ domain ]
  ]

  derived_base : Option String → Checked String
  unfolding apps_domain
  derived_base none = rejected "cannot derive OpenShift OAuth URL: tracking_url unset"
  derived_base (some url) =
      if truthy url
      then (if truthy (apps_domain url)
          then accepted ("https://oauth-openshift." ⧺ apps_domain url)
          else rejected ("cannot derive OpenShift OAuth URL from " ⧺ url))
      else rejected "cannot derive OpenShift OAuth URL: tracking_url unset"

  unfoldable pub openshift_oauth_base : MlflowConfig → Checked String
  unfolding derived_base
  openshift_oauth_base cfg = elim cfg.oauth_url [
    | none ↦ derived_base cfg.tracking_url
    | some url ↦ if truthy url then accepted (rstrip "/" url) else derived_base cfg.tracking_url
  ]

  -- `dict(pair.split("=", 1) for pair in pairs if "=" in pair)`
  unfoldable pub pairs_of : List String → Dict String → Dict String
  pairs_of [] params = params
  pairs_of (pair ∷ pairs) params =
      pairs_of pairs
        (elim (partition_on "=" pair) [ none ↦ params | some (key, value) ↦ put key value params ])

  unfoldable pub challenge_request : MlflowConfig → String → Request
  unfolding text_of
  challenge_request cfg base = record {
    method = Method.get;
    url = base ⧺ "/oauth/authorize";
    headers =
        (
          "Authorization",
          "Basic " ⧺ urls.basic (text_of cfg.username ⧺ (":" ⧺ text_of cfg.password)),
        )
        ∷ ("X-CSRF-Token", "1")
        ∷ [];
    params = ("client_id", "openshift-challenging-client") ∷ ("response_type", "token") ∷ [];
    form = [];
    body = none;
  }

  -- The token in the fragment of the redirect.
  unfoldable pub read_challenge : String → Response → Checked Json
  read_challenge base response =
      if any (eqb response.status_code) (301 ∷ 302 ∷ 303 ∷ 307 ∷ 308 ∷ [])
      then (elim (get "access_token" (pairs_of (split "&" (urls.fragment response.location)) [])) [
        | none ↦ rejected "OpenShift OAuth challenge returned no access_token"
        | some token ↦
            if truthy token
            then accepted (str token)
            else rejected "OpenShift OAuth challenge returned no access_token"
      ])
      else rejected (
          "OpenShift OAuth challenge failed (HTTP "
          ⧺ (decimal response.status_code ⧺ (") at " ⧺ base)))

  module _ {W : Type 0} (web : Web W) where
    challenge_at : MlflowConfig → Checked String → W → Checked Json × W
    challenge_at cfg (accepted base) w =
        let (sent, after) = web.send (challenge_request cfg base) w in
        (when_sent sent (read_challenge base), after)
    challenge_at cfg (rejected text) w = (rejected text, w)
    challenge_at cfg (unreachable text) w = (unreachable text, w)
    challenge_at cfg (broken text) w = (broken text, w)

    unfoldable pub openshift_challenge_token : MlflowConfig → W → Checked Json × W
    unfolding challenge_at
    openshift_challenge_token cfg w = challenge_at cfg (openshift_oauth_base cfg) w

    -- The modes that ask a server.
    unfoldable pub minted : (String → Bool) → MlflowConfig → W → Checked Json × W
    minted is_zero cfg w =
        if is_set cfg.username && is_set cfg.password
        then openshift_challenge_token cfg w
        else client_credentials_token is_zero web cfg w

    unfoldable pub mlflow_token : (String → Bool) → MlflowConfig → W → Checked Json × W
    mlflow_token is_zero cfg w = elim cfg.bearer_token [
      | some token ↦ if truthy token then (accepted (str token), w) else minted is_zero cfg w
      | none ↦ minted is_zero cfg w
    ]
