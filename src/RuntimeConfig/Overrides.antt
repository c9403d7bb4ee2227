-- ===== src/RuntimeConfig/Overrides.antt =====
-- runtime_config.py: what a tenant reads after an update, and what another tenant reads.
use autobench.Prelude.{
  String, true, false, ◌≡◌, refl, sym, ap, ◌∙◌, Option, none, some, ◌==◌, eq_iff, eq_refl,
  if◌then◌else◌, Bool-cases, inl, inr,
}
use autobench.Prelude.Dict.{get, get-put}
use autobench.Models.Config.{
  MlflowConfig, S3Config, InstanceConfig, MlflowUpdate, S3Update, ConfigUpdateRequest,
}
use autobench.RuntimeConfig.{
  given_or, later, merge_mlflow, merge_s3, overlay_mlflow, overlay_s3, no_mlflow, no_s3, Override,
  empty_override, Store, override_of, apply_mlflow, apply_s3, apply, overlaid, effective_override,
  effective, response, redacted, mask, is_secret_field, redact_mlflow, redact_s3, update_config,
}
use autobench.RuntimeConfig.Updated.{updated, updated_lem}
use mathlib.Core.Path.{subst}

given_later :
    {A : Type 0} (base : A) (old incoming : Option A)
    → given_or base (later old incoming) ≡ given_or (given_or base old) incoming
given_later base old none = refl
given_later base old (some v) = refl

merge_mlflow_lem :
    (old incoming : MlflowUpdate) (base : MlflowConfig)
    → overlay_mlflow (merge_mlflow old incoming) base
      ≡ overlay_mlflow incoming (overlay_mlflow old base)
unfolding overlay_mlflow merge_mlflow
merge_mlflow_lem old incoming base = λ i. record {
  tracking_url = given_later base.tracking_url old.tracking_url incoming.tracking_url i;
  client_id = given_later base.client_id old.client_id incoming.client_id i;
  client_secret = given_later base.client_secret old.client_secret incoming.client_secret i;
  token_url = given_later base.token_url old.token_url incoming.token_url i;
  username = given_later base.username old.username incoming.username i;
  password = given_later base.password old.password incoming.password i;
  oauth_url = given_later base.oauth_url old.oauth_url incoming.oauth_url i;
  bearer_token = given_later base.bearer_token old.bearer_token incoming.bearer_token i;
  experiment_id = given_later base.experiment_id old.experiment_id incoming.experiment_id i;
  workspace = given_later base.workspace old.workspace incoming.workspace i;
  insecure_tls = given_later base.insecure_tls old.insecure_tls incoming.insecure_tls i;
}

merge_s3_lem :
    (old incoming : S3Update) (base : S3Config)
    → overlay_s3 (merge_s3 old incoming) base ≡ overlay_s3 incoming (overlay_s3 old base)
unfolding overlay_s3 merge_s3
merge_s3_lem old incoming base = λ i. record {
  endpoint_url = given_later base.endpoint_url old.endpoint_url incoming.endpoint_url i;
  bucket = given_later base.bucket old.bucket incoming.bucket i;
  region = given_later base.region old.region incoming.region i;
  access_key_id = given_later base.access_key_id old.access_key_id incoming.access_key_id i;
  secret_access_key =
      given_later base.secret_access_key old.secret_access_key incoming.secret_access_key i;
  prefix = given_later base.prefix old.prefix incoming.prefix i;
  public_read = given_later base.public_read old.public_read incoming.public_read i;
}

apply_mlflow_lem :
    (current : Option MlflowUpdate) (incoming : Option MlflowUpdate) (base : MlflowConfig)
    → overlay_mlflow (given_or no_mlflow (apply_mlflow current incoming)) base
      ≡ overlay_mlflow
          (given_or no_mlflow incoming)
          (overlay_mlflow (given_or no_mlflow current) base)
unfolding apply_mlflow overlay_mlflow
apply_mlflow_lem current none base = refl
apply_mlflow_lem current (some incoming) base =
    merge_mlflow_lem (given_or no_mlflow current) incoming base

apply_s3_lem :
    (current : Option S3Update) (incoming : Option S3Update) (base : S3Config)
    → overlay_s3 (given_or no_s3 (apply_s3 current incoming)) base
      ≡ overlay_s3 (given_or no_s3 incoming) (overlay_s3 (given_or no_s3 current) base)
unfolding apply_s3 overlay_s3
apply_s3_lem current none base = refl
apply_s3_lem current (some incoming) base = merge_s3_lem (given_or no_s3 current) incoming base

effective_empty :
    (o : Option Override) (base : InstanceConfig)
    → effective_override o base ≡ overlaid (given_or empty_override o) base
unfolding effective_override overlay_mlflow overlay_s3
effective_empty none base = refl
effective_empty (some o) base = refl

applied_lem :
    (current : Override) (update : ConfigUpdateRequest) (base : InstanceConfig)
    → overlaid
        (record {
          mlflow = apply_mlflow current.mlflow update.mlflow;
          s3 = apply_s3 current.s3 update.s3;
        })
        base
      ≡ updated update (overlaid current base)
applied_lem current update base =
    (λ i. record base {
      mlflow = apply_mlflow_lem current.mlflow update.mlflow base.mlflow i;
      s3 = apply_s3_lem current.s3 update.s3 base.s3 i;
    })
    ∙ updated_lem update (overlaid current base)

-- The override of the tenant after the update.
abbrev applied : ConfigUpdateRequest → Override → Override
applied update current = record {
  mlflow = apply_mlflow current.mlflow update.mlflow;
  s3 = apply_s3 current.s3 update.s3;
}

effective_own :
    (iss : String) (update : ConfigUpdateRequest) (base : InstanceConfig) (store : Store)
    → effective_override (some (applied update (override_of iss store))) base
      ≡ updated update (effective iss base store)
unfolding effective override_of effective_override
effective_own iss update base store =
    applied_lem (given_or empty_override (get iss store)) update base
    ∙ ap (updated update) (sym (effective_empty (get iss store) base))

-- After an update by one tenant, that tenant's configuration is the one before with the fields that
-- the request gives, an explicit null included, and every field that it does not give as it was; the
-- configuration of any other tenant is as it was.
pub effective-apply :
    (iss other : String) (update : ConfigUpdateRequest) (base : InstanceConfig) (store : Store)
    → effective other base (apply iss update store) ≡ (
        if iss == other
        then updated update (effective other base store)
        else effective other base store)
unfolding effective apply
effective-apply iss other update base store = elim (Bool-cases (iss == other)) [
  | inl same ↦
      let e : iss ≡ other = (eq_iff iss other).0 same in
      rw same (
        ap (λ o. effective_override o base)
          (get-put iss other (applied update (override_of iss store)) store ∙ rw same refl)
        ∙ (effective_own iss update base store
            ∙ ap (λ (t : String). updated update (effective_override (get t store) base)) e))
  | inr differs ↦ rw differs (
      ap (λ o. effective_override o base)
        (get-put iss other (applied update (override_of iss store)) store ∙ rw differs refl))
]

own :
    (update : ConfigUpdateRequest) (base : InstanceConfig) (store : Store)
    → effective base.iss base (apply base.iss update store)
      ≡ updated update (effective base.iss base store)
own update base store =
    effective-apply base.iss base.iss update base store ∙ rw (eq_refl base.iss) refl

-- A secret that is there is shown as the mask, and None as None.
abbrev pub IsMasked : Option String → Option String → Type 0
IsMasked none shown = shown ≡ none
IsMasked (some _) shown = shown ≡ some redacted

mask_secret :
    (name : String) (o : Option String) → is_secret_field name ≡ true → IsMasked o (mask name o)
unfolding mask
mask_secret name none h = refl
mask_secret name (some v) h = rw h refl

mask_plain : (name : String) (o : Option String) → is_secret_field name ≡ false → mask name o ≡ o
unfolding mask
mask_plain name none h = refl
mask_plain name (some v) h = rw h refl

-- What a response shows of a configuration.
abbrev pub ShowsMlflow : MlflowConfig → MlflowConfig → Type 0
ShowsMlflow c shown =
    IsMasked c.client_secret shown.client_secret
    × IsMasked c.password shown.password
    × IsMasked c.bearer_token shown.bearer_token
    × (shown.tracking_url ≡ c.tracking_url)
    × (shown.client_id ≡ c.client_id)
    × (shown.token_url ≡ c.token_url)
    × (shown.username ≡ c.username)
    × (shown.oauth_url ≡ c.oauth_url)
    × (shown.workspace ≡ c.workspace)
    × (shown.experiment_id ≡ c.experiment_id)
    × (shown.insecure_tls ≡ c.insecure_tls)

abbrev pub ShowsS3 : S3Config → S3Config → Type 0
ShowsS3 c shown =
    IsMasked c.secret_access_key shown.secret_access_key
    × (shown.endpoint_url ≡ c.endpoint_url)
    × (shown.bucket ≡ c.bucket)
    × (shown.region ≡ c.region)
    × (shown.access_key_id ≡ c.access_key_id)
    × (shown.prefix ≡ c.prefix)
    × (shown.public_read ≡ c.public_read)

redact_mlflow_lem : (c : MlflowConfig) → ShowsMlflow c (redact_mlflow c)
unfolding redact_mlflow is_secret_field
redact_mlflow_lem c = (
  mask_secret "client_secret" c.client_secret refl,
  mask_secret "password" c.password refl,
  mask_secret "bearer_token" c.bearer_token refl,
  mask_plain "tracking_url" c.tracking_url refl,
  mask_plain "client_id" c.client_id refl,
  mask_plain "token_url" c.token_url refl,
  mask_plain "username" c.username refl,
  mask_plain "oauth_url" c.oauth_url refl,
  mask_plain "workspace" c.workspace refl,
  refl,
  refl,
)

redact_s3_lem : (c : S3Config) → ShowsS3 c (redact_s3 c)
unfolding redact_s3 is_secret_field
redact_s3_lem c = (
  mask_secret "secret_access_key" c.secret_access_key refl,
  mask_plain "endpoint_url" c.endpoint_url refl,
  mask_plain "bucket" c.bucket refl,
  mask_plain "region" c.region refl,
  mask_plain "access_key_id" c.access_key_id refl,
  mask_plain "prefix" c.prefix refl,
  refl,
)

-- The answer to an update shows the configuration that is in force after it, the fields that the
-- request gives replaced and all others as they were: each of the four secrets as None where it is
-- None and as "***" where it is not, and every other field as it is.
pub update_config_shows :
    (update : ConfigUpdateRequest) (base : InstanceConfig) (store : Store)
    → ShowsMlflow
        (updated update (effective base.iss base store)).mlflow
        (update_config update base store).1.mlflow
      × ShowsS3
          (updated update (effective base.iss base store)).s3
          (update_config update base store).1.s3
unfolding update_config response
update_config_shows update base store =
    subst
      (λ (eff : InstanceConfig).
        ShowsMlflow eff.mlflow
          (redact_mlflow (effective base.iss base (apply base.iss update store)).mlflow)
        × ShowsS3 eff.s3 (redact_s3 (effective base.iss base (apply base.iss update store)).s3))
      (own update base store)
      (
        redact_mlflow_lem (effective base.iss base (apply base.iss update store)).mlflow,
        redact_s3_lem (effective base.iss base (apply base.iss update store)).s3,
      )
