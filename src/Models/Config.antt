-- ===== src/Models/Config.antt =====
-- models.py: the configuration of an instance, its parts that the Service enacts, and their updates.
use autobench.Prelude.{String, Bool, Option}
use autobench.Models.Workload.{WorkloadOtelConfig, WorkloadLlmConfig}

pub record MlflowConfig : Type 0 where
  pub tracking_url : Option String
  pub client_id : Option String
  pub client_secret : Option String
  pub token_url : Option String
  pub username : Option String
  pub password : Option String
  pub oauth_url : Option String
  pub bearer_token : Option String
  pub experiment_id : String
  pub workspace : Option String
  pub insecure_tls : Bool

pub record S3Config : Type 0 where
  pub endpoint_url : Option String
  pub bucket : Option String
  pub region : Option String
  pub access_key_id : Option String
  pub secret_access_key : Option String
  pub prefix : Option String
  pub public_read : Bool

pub record ServiceCredential : Type 0 where
  pub client_id : String
  pub client_secret : Option String
  pub username : String
  pub password : String

pub record InstanceConfig : Type 0 where
  pub iss : String
  pub keycloak_backchannel_url : Option String
  pub rossoctl_base_url : String
  pub service_credential : ServiceCredential
  pub mlflow : MlflowConfig
  pub s3 : S3Config
  pub mcp_endpoint_template : Option String
  pub agent_endpoint_template : Option String
  pub workload_otel : Option WorkloadOtelConfig
  pub workload_llm : Option WorkloadLlmConfig
  pub workload_agent_runner : Option String

-- An `MLflowConfig` of a request by `exclude_unset`: a field that the request does not give is none, and
-- one that it gives as null is `some none`.
pub record MlflowUpdate : Type 0 where
  pub tracking_url : Option (Option String)
  pub client_id : Option (Option String)
  pub client_secret : Option (Option String)
  pub token_url : Option (Option String)
  pub username : Option (Option String)
  pub password : Option (Option String)
  pub oauth_url : Option (Option String)
  pub bearer_token : Option (Option String)
  pub experiment_id : Option String
  pub workspace : Option (Option String)
  pub insecure_tls : Option Bool

pub record S3Update : Type 0 where
  pub endpoint_url : Option (Option String)
  pub bucket : Option (Option String)
  pub region : Option (Option String)
  pub access_key_id : Option (Option String)
  pub secret_access_key : Option (Option String)
  pub prefix : Option (Option String)
  pub public_read : Option Bool

pub record ConfigUpdateRequest : Type 0 where
  pub mlflow : Option MlflowUpdate
  pub s3 : Option S3Update

pub record ConfigResponse : Type 0 where
  pub iss : String
  pub mlflow : MlflowConfig
  pub s3 : S3Config
