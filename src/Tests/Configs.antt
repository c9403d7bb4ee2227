-- ===== src/Tests/Configs.antt =====
-- Configurations, and a deploy with a Secret of its own.
use autobench.Prelude.{ℕ, ◌⧺◌, true, false, ◌≡◌, none, some, [], ◌==◌, truthy, if◌then◌else◌}
use autobench.Prelude.Json.{object, end}
use autobench.Models.Config.{MlflowConfig, S3Config, InstanceConfig, ConfigUpdateRequest}
use autobench.Models.Workload.{WorkloadLlmConfig}
use autobench.Benchmarks.Definition.{Format}
use autobench.RuntimeConfig.{apply, effective, update_config, no_mlflow}
use autobench.RuntimeConfig.Updated.{updated}
use autobench.RuntimeConfig.Overrides.{effective-apply, ShowsMlflow, ShowsS3, update_config_shows}
use autobench.Routes.Platform.{replied, refused, DeployBenchmarkRequest, Platform, State}
use autobench.Routes.Deploy.{deploy_benchmark}
use autobench.Routes.Deploy.Recorded.{Recorded, deploy_benchmark-Recorded}

abbrev pub mlflow : MlflowConfig
mlflow = record {
  tracking_url = some "https://mlflow";
  client_id = none;
  client_secret = some "s3cret";
  token_url = none;
  username = none;
  password = none;
  oauth_url = none;
  bearer_token = none;
  experiment_id = "1";
  workspace = none;
  insecure_tls = true;
}

abbrev pub s3 : S3Config
s3 = record {
  endpoint_url = none;
  bucket = some "bench";
  region = none;
  access_key_id = none;
  secret_access_key = some "key";
  prefix = none;
  public_read = false;
}

abbrev pub llm : WorkloadLlmConfig
llm = record {
  api_base = some "http://litellm:4000";
  default_model = none;
  disable_proxy = false;
  no_proxy = none;
  gateway_label = some "ete";
}

abbrev pub own : InstanceConfig
own = record {
  iss = "https://sso/realms/team1";
  keycloak_backchannel_url = none;
  rossoctl_base_url = "http://rossoctl";
  service_credential = record {
    client_id = "svc";
    client_secret = none;
    username = "bench";
    password = "pw";
  };
  mlflow = mlflow;
  s3 = s3;
  mcp_endpoint_template = none;
  agent_endpoint_template = none;
  workload_otel = none;
  workload_llm = some llm;
  workload_agent_runner = none;
}

-- A request that gives one field, and one that is null.
abbrev update : ConfigUpdateRequest
update = record {
  mlflow = some (record no_mlflow { insecure_tls = some false; workspace = some none });
  s3 = none;
}

effective-apply_example : effective own.iss own (apply own.iss update []) ≡ (
    if own.iss == own.iss
    then updated update (effective own.iss own [])
    else effective own.iss own [])
effective-apply_example = effective-apply own.iss own.iss update own []

update_config_shows_example :
    ShowsMlflow
      (updated update (effective own.iss own [])).mlflow
      (update_config update own []).1.mlflow
    × ShowsS3 (updated update (effective own.iss own [])).s3 (update_config update own []).1.s3
update_config_shows_example = update_config_shows update own []

abbrev format : Format
format template service namespace = "https://" ⧺ (service ⧺ ("-" ⧺ namespace))

-- A platform that does what it is told, and counts the calls.
abbrev platform : Platform ℕ
platform = record {
  create_tool = λ req n. (replied (object end), 1);
  create_agent = λ req n. (replied (object end), 2);
  get_tool = λ namespace name n. (replied (some "Ready"), n);
  get_agent = λ namespace name n. (replied (some "Ready"), n);
  delete_agent = λ namespace name n. (refused 404 "no such agent", n);
  delete_tool = λ namespace name n. (replied tt, n);
}

abbrev deploy : DeployBenchmarkRequest
deploy = record {
  agent = "tool_calling";
  model = none;
  namespace = "team1";
  experiment = "default";
  authbridge_enabled = false;
  plugin_preset = none;
  plugins = none;
  on_error = none;
  plugin_config_file = none;
  llm_api_base = none;
  llm_key_secret = some "team-key:token";
  llm_gateway = none;
}

abbrev start : State ℕ
start = record { world = 0; deployments = [] }

deploy_benchmark-Recorded_example :
    Recorded platform format truthy truthy own "gsm8k" deploy []
      (deploy_benchmark platform format truthy truthy own "gsm8k" deploy start)
deploy_benchmark-Recorded_example =
    deploy_benchmark-Recorded platform format truthy truthy own "gsm8k" deploy start
