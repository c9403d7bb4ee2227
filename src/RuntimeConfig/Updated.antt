-- ===== src/RuntimeConfig/Updated.antt =====
-- runtime_config.py, `apply` and `effective`: what a configuration is to be after an update, field by
-- field, in words of its own.
use autobench.Prelude.{◌≡◌, refl, Option, none, some}
use autobench.Models.Config.{
  MlflowConfig, S3Config, InstanceConfig, MlflowUpdate, S3Update, ConfigUpdateRequest,
}
use autobench.RuntimeConfig.{given_or, overlay_mlflow, overlay_s3, no_mlflow, no_s3}

-- A field that a request gives, null included, takes the place of the old one.
abbrev now : {A : Type 0} → Option A → A → A
now none before = before
now (some v) before = v

abbrev now_mlflow : Option MlflowUpdate → MlflowConfig → MlflowConfig
now_mlflow none before = before
now_mlflow (some update) before = record {
  tracking_url = now update.tracking_url before.tracking_url;
  client_id = now update.client_id before.client_id;
  client_secret = now update.client_secret before.client_secret;
  token_url = now update.token_url before.token_url;
  username = now update.username before.username;
  password = now update.password before.password;
  oauth_url = now update.oauth_url before.oauth_url;
  bearer_token = now update.bearer_token before.bearer_token;
  experiment_id = now update.experiment_id before.experiment_id;
  workspace = now update.workspace before.workspace;
  insecure_tls = now update.insecure_tls before.insecure_tls;
}

abbrev now_s3 : Option S3Update → S3Config → S3Config
now_s3 none before = before
now_s3 (some update) before = record {
  endpoint_url = now update.endpoint_url before.endpoint_url;
  bucket = now update.bucket before.bucket;
  region = now update.region before.region;
  access_key_id = now update.access_key_id before.access_key_id;
  secret_access_key = now update.secret_access_key before.secret_access_key;
  prefix = now update.prefix before.prefix;
  public_read = now update.public_read before.public_read;
}

-- The configuration with the fields that a request gives, and its own in all others.
abbrev pub updated : ConfigUpdateRequest → InstanceConfig → InstanceConfig
updated update before = record before {
  mlflow = now_mlflow update.mlflow before.mlflow;
  s3 = now_s3 update.s3 before.s3;
}

now_lem : {A : Type 0} (given : Option A) (before : A) → given_or before given ≡ now given before
now_lem none before = refl
now_lem (some v) before = refl

now_mlflow_lem :
    (given : Option MlflowUpdate) (before : MlflowConfig)
    → overlay_mlflow (given_or no_mlflow given) before ≡ now_mlflow given before
unfolding overlay_mlflow
now_mlflow_lem none before = refl
now_mlflow_lem (some update) before = λ i. record {
  tracking_url = now_lem update.tracking_url before.tracking_url i;
  client_id = now_lem update.client_id before.client_id i;
  client_secret = now_lem update.client_secret before.client_secret i;
  token_url = now_lem update.token_url before.token_url i;
  username = now_lem update.username before.username i;
  password = now_lem update.password before.password i;
  oauth_url = now_lem update.oauth_url before.oauth_url i;
  bearer_token = now_lem update.bearer_token before.bearer_token i;
  experiment_id = now_lem update.experiment_id before.experiment_id i;
  workspace = now_lem update.workspace before.workspace i;
  insecure_tls = now_lem update.insecure_tls before.insecure_tls i;
}

now_s3_lem :
    (given : Option S3Update) (before : S3Config)
    → overlay_s3 (given_or no_s3 given) before ≡ now_s3 given before
unfolding overlay_s3
now_s3_lem none before = refl
now_s3_lem (some update) before = λ i. record {
  endpoint_url = now_lem update.endpoint_url before.endpoint_url i;
  bucket = now_lem update.bucket before.bucket i;
  region = now_lem update.region before.region i;
  access_key_id = now_lem update.access_key_id before.access_key_id i;
  secret_access_key = now_lem update.secret_access_key before.secret_access_key i;
  prefix = now_lem update.prefix before.prefix i;
  public_read = now_lem update.public_read before.public_read i;
}

-- What the request's two parts lay over a configuration is what it is to become.
pub updated_lem :
    (update : ConfigUpdateRequest) (before : InstanceConfig)
    → record before {
      mlflow = overlay_mlflow (given_or no_mlflow update.mlflow) before.mlflow;
      s3 = overlay_s3 (given_or no_s3 update.s3) before.s3;
    }
      ≡ updated update before
updated_lem update before = λ i. record before {
  mlflow = now_mlflow_lem update.mlflow before.mlflow i;
  s3 = now_s3_lem update.s3 before.s3 i;
}
