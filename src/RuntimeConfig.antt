-- ===== src/RuntimeConfig.antt =====
-- runtime_config.py: what a tenant has set at runtime over the configuration of its instance.
pub mod Overrides
pub mod Updated
use autobench.Prelude.{
  String, Bool, true, false, ◌||◌, Option, none, some, List, [], ◌∷◌, ◌==◌, if◌then◌else◌,
}
use autobench.Prelude.Dict.{Dict, get, put}
use autobench.Models.Config.{
  MlflowConfig, S3Config, InstanceConfig, MlflowUpdate, S3Update, ConfigUpdateRequest,
  ConfigResponse,
}

-- `_REDACTED`
abbrev pub redacted : String
redacted = "***"

unfoldable pub is_secret_field : String → Bool
is_secret_field name =
    name == "secret_access_key"
    || name == "client_secret"
    || name == "password"
    || name == "bearer_token"

-- The value of a text field in the copy: None stays None.
unfoldable pub mask : String → Option String → Option String
mask name none = none
mask name (some v) = some (if is_secret_field name then redacted else v)

-- `mask` of a text that is never None
abbrev mask_text : String → String → String
mask_text name v = if is_secret_field name then redacted else v

-- `_redact` of either model
unfoldable pub redact_mlflow : MlflowConfig → MlflowConfig
redact_mlflow c = record {
  tracking_url = mask "tracking_url" c.tracking_url;
  client_id = mask "client_id" c.client_id;
  client_secret = mask "client_secret" c.client_secret;
  token_url = mask "token_url" c.token_url;
  username = mask "username" c.username;
  password = mask "password" c.password;
  oauth_url = mask "oauth_url" c.oauth_url;
  bearer_token = mask "bearer_token" c.bearer_token;
  experiment_id = mask_text "experiment_id" c.experiment_id;
  workspace = mask "workspace" c.workspace;
  insecure_tls = c.insecure_tls;
}

unfoldable pub redact_s3 : S3Config → S3Config
redact_s3 c = record {
  endpoint_url = mask "endpoint_url" c.endpoint_url;
  bucket = mask "bucket" c.bucket;
  region = mask "region" c.region;
  access_key_id = mask "access_key_id" c.access_key_id;
  secret_access_key = mask "secret_access_key" c.secret_access_key;
  prefix = mask "prefix" c.prefix;
  public_read = c.public_read;
}

-- A field of the update, or what there is without it.
abbrev pub given_or : {A : Type 0} → A → Option A → A
given_or old none = old
given_or old (some v) = v

abbrev pub later : {A : Type 0} → Option A → Option A → Option A
later old none = old
later old (some v) = some v

-- `merged.update(incoming.model_dump(exclude_unset=True))`
unfoldable pub merge_mlflow : MlflowUpdate → MlflowUpdate → MlflowUpdate
merge_mlflow old incoming = record {
  tracking_url = later old.tracking_url incoming.tracking_url;
  client_id = later old.client_id incoming.client_id;
  client_secret = later old.client_secret incoming.client_secret;
  token_url = later old.token_url incoming.token_url;
  username = later old.username incoming.username;
  password = later old.password incoming.password;
  oauth_url = later old.oauth_url incoming.oauth_url;
  bearer_token = later old.bearer_token incoming.bearer_token;
  experiment_id = later old.experiment_id incoming.experiment_id;
  workspace = later old.workspace incoming.workspace;
  insecure_tls = later old.insecure_tls incoming.insecure_tls;
}

unfoldable pub merge_s3 : S3Update → S3Update → S3Update
merge_s3 old incoming = record {
  endpoint_url = later old.endpoint_url incoming.endpoint_url;
  bucket = later old.bucket incoming.bucket;
  region = later old.region incoming.region;
  access_key_id = later old.access_key_id incoming.access_key_id;
  secret_access_key = later old.secret_access_key incoming.secret_access_key;
  prefix = later old.prefix incoming.prefix;
  public_read = later old.public_read incoming.public_read;
}

-- `model_copy(update=…)`
unfoldable pub overlay_mlflow : MlflowUpdate → MlflowConfig → MlflowConfig
overlay_mlflow update base = record {
  tracking_url = given_or base.tracking_url update.tracking_url;
  client_id = given_or base.client_id update.client_id;
  client_secret = given_or base.client_secret update.client_secret;
  token_url = given_or base.token_url update.token_url;
  username = given_or base.username update.username;
  password = given_or base.password update.password;
  oauth_url = given_or base.oauth_url update.oauth_url;
  bearer_token = given_or base.bearer_token update.bearer_token;
  experiment_id = given_or base.experiment_id update.experiment_id;
  workspace = given_or base.workspace update.workspace;
  insecure_tls = given_or base.insecure_tls update.insecure_tls;
}

unfoldable pub overlay_s3 : S3Update → S3Config → S3Config
overlay_s3 update base = record {
  endpoint_url = given_or base.endpoint_url update.endpoint_url;
  bucket = given_or base.bucket update.bucket;
  region = given_or base.region update.region;
  access_key_id = given_or base.access_key_id update.access_key_id;
  secret_access_key = given_or base.secret_access_key update.secret_access_key;
  prefix = given_or base.prefix update.prefix;
  public_read = given_or base.public_read update.public_read;
}

abbrev pub no_mlflow : MlflowUpdate
no_mlflow = record {
  tracking_url = none;
  client_id = none;
  client_secret = none;
  token_url = none;
  username = none;
  password = none;
  oauth_url = none;
  bearer_token = none;
  experiment_id = none;
  workspace = none;
  insecure_tls = none;
}

abbrev pub no_s3 : S3Update
no_s3 = record {
  endpoint_url = none;
  bucket = none;
  region = none;
  access_key_id = none;
  secret_access_key = none;
  prefix = none;
  public_read = none;
}

-- The override of a tenant: a section that is not there is none.
pub record Override : Type 0 where
  pub mlflow : Option MlflowUpdate
  pub s3 : Option S3Update

abbrev pub empty_override : Override
empty_override = record { mlflow = none; s3 = none }

-- `RuntimeConfigStore._overrides`
abbrev pub Store : Type 0
Store = Dict Override

-- `setdefault(iss, {})`, as a value
unfoldable pub override_of : String → Store → Override
override_of iss store = given_or empty_override (get iss store)

-- One section: without an incoming one it stays as it is.
unfoldable pub apply_mlflow : Option MlflowUpdate → Option MlflowUpdate → Option MlflowUpdate
apply_mlflow current none = current
apply_mlflow current (some incoming) = some (merge_mlflow (given_or no_mlflow current) incoming)

unfoldable pub apply_s3 : Option S3Update → Option S3Update → Option S3Update
apply_s3 current none = current
apply_s3 current (some incoming) = some (merge_s3 (given_or no_s3 current) incoming)

-- `RuntimeConfigStore.apply`
unfoldable pub apply : String → ConfigUpdateRequest → Store → Store
apply iss update store =
    let current = override_of iss store in
    put iss
      (record {
        mlflow = apply_mlflow current.mlflow update.mlflow;
        s3 = apply_s3 current.s3 update.s3;
      })
      store

abbrev pub overlaid : Override → InstanceConfig → InstanceConfig
overlaid override base = record base {
  mlflow = overlay_mlflow (given_or no_mlflow override.mlflow) base.mlflow;
  s3 = overlay_s3 (given_or no_s3 override.s3) base.s3;
}

-- `RuntimeConfigStore.effective`; an override without a section is falsy.
unfoldable pub effective_override : Option Override → InstanceConfig → InstanceConfig
effective_override none base = base
effective_override (some override) base = overlaid override base

unfoldable pub effective : String → InstanceConfig → Store → InstanceConfig
effective iss base store = effective_override (get iss store) base

-- `RuntimeConfigStore.response`
unfoldable pub response : String → InstanceConfig → Store → ConfigResponse
response iss base store =
    let eff = effective iss base store in
    record { iss = iss; mlflow = redact_mlflow eff.mlflow; s3 = redact_s3 eff.s3 }

-- routes/config.py: the answer to a GET, and the store and the answer after a PUT.
unfoldable pub get_config : InstanceConfig → Store → ConfigResponse
get_config instance_config store = response instance_config.iss instance_config store

unfoldable pub update_config : ConfigUpdateRequest → InstanceConfig → Store → Store × ConfigResponse
update_config req instance_config store =
    let applied = apply instance_config.iss req store in
    (applied, response instance_config.iss instance_config applied)
