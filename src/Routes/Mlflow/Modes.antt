-- ===== src/Routes/Mlflow/Modes.antt =====
-- routes/mlflow.py, `credential_mode`, and the modes of auth/mlflow.py, `mlflow_token`.
use autobench.Prelude.{
  String, Bool, ◌&&◌, Option, none, some, ◌≡◌, refl, ◌==◌, is_set, truthy, if◌then◌else◌,
  Bool-cases, inl, inr,
}
use autobench.Prelude.Json.{Json, str}
use autobench.Prelude.Http.{Web}
use autobench.Models.Config.{MlflowConfig}
use autobench.Auth.{Checked, accepted, rejected, when_sent}
use autobench.Auth.Login.{
  Urls, post_form, read_token, credentials_form, token_failed, text_of, client_credentials_token,
  openshift_challenge_token, minted, mlflow_token,
}
use autobench.Routes.Mlflow.{credential_mode}

module _ {W : Type 0} (urls : Urls) (web : Web W) (is_zero : String → Bool)
    (cfg : MlflowConfig) where
  -- One request for the grant of client credentials.
  pub granted : W → Checked Json × W
  granted w =
      let (sent, after) = web.send (post_form (text_of cfg.token_url) (credentials_form cfg)) w in
      (
        when_sent sent
            (read_token is_zero (token_failed cfg) "MLflow token request returned no access_token"),
        after,
      )

  -- What the name of a mode stands for.
  pub token_by_mode : String → W → Checked Json × W
  token_by_mode mode w =
      if mode == "bearer_token"
      then (accepted (str (text_of cfg.bearer_token)), w)
      else if mode == "openshift_oauth"
      then openshift_challenge_token urls web cfg w
      else if mode == "client_credentials"
      then granted w
      else (
        rejected "MLflow client-credentials not configured (token_url/client_id/client_secret)",
        w,
      )

  minted_by_mode :
      (w : W)
      → minted urls web is_zero cfg w
        ≡ token_by_mode
            (if is_set cfg.username && is_set cfg.password
              then "openshift_oauth"
              else if is_set cfg.token_url && is_set cfg.client_id && is_set cfg.client_secret
              then "client_credentials"
              else "none")
            w
  unfolding minted client_credentials_token token_by_mode granted
  minted_by_mode w = elim (Bool-cases (is_set cfg.username && is_set cfg.password)) [
    | inl e ↦ rw e refl
    | inr e ↦
        rw e
          (elim (Bool-cases
            (is_set cfg.token_url && is_set cfg.client_id && is_set cfg.client_secret)) [
              | inl f ↦ rw f refl
              | inr f ↦ rw f refl
            ])
  ]

  -- mlflow_token does what the mode that credential_mode names stands for: bearer_token gives the
  -- configured bearer without a request, openshift_oauth is the challenge flow, client_credentials is
  -- one POST of the grant to token_url, and for none the token is refused without a request.
  pub mlflow_token-credential_mode :
      (w : W) → mlflow_token urls web is_zero cfg w ≡ token_by_mode (credential_mode cfg) w
  unfolding mlflow_token credential_mode token_by_mode text_of
  mlflow_token-credential_mode w = by_bearer cfg.bearer_token refl
    where
      by_bearer :
          (bearer : Option String)
          → cfg.bearer_token ≡ bearer
          → (elim bearer [
            | some token ↦
                if truthy token then (accepted (str token), w) else minted urls web is_zero cfg w
            | none ↦ minted urls web is_zero cfg w
          ])
            ≡ token_by_mode
                (if is_set bearer
                  then "bearer_token"
                  else if is_set cfg.username && is_set cfg.password
                  then "openshift_oauth"
                  else if is_set cfg.token_url && is_set cfg.client_id && is_set cfg.client_secret
                  then "client_credentials"
                  else "none")
                w
      by_bearer none e = minted_by_mode w
      by_bearer (some token) e = elim (Bool-cases (truthy token)) [
        | inl t ↦ rw t (rw e refl)
        | inr t ↦ rw t (minted_by_mode w)
      ]
