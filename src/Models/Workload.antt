-- ===== src/Models/Workload.antt =====
-- models.py: the configuration of a workload, and the requests that create its tool and agent.
use autobench.Prelude.{ℕ, String, Bool, Option, List}

pub record SecretKeyRef : Type 0 where
  pub name : String
  pub key : String

-- `value_from : EnvVarSource | None` holds nothing but the reference to a Secret's key.
pub record EnvVar : Type 0 where
  pub name : String
  pub value : Option String
  pub value_from : Option SecretKeyRef

pub record WorkloadOtelConfig : Type 0 where
  pub enabled : Bool
  pub endpoint : Option String
  pub protocol : String
  pub insecure : Bool
  pub service_name : Option String
  pub resource_attributes : Option String

pub record WorkloadLlmConfig : Type 0 where
  pub api_base : Option String
  pub default_model : Option String
  pub disable_proxy : Bool
  pub no_proxy : Option String
  pub gateway_label : Option String

pub record ServicePort : Type 0 where
  pub name : String
  pub port : ℕ
  pub target_port : ℕ
  pub protocol : String

pub record ResourceQuantities : Type 0 where
  pub cpu : Option String
  pub memory : Option String

pub record AgentResources : Type 0 where
  pub requests : Option ResourceQuantities
  pub limits : Option ResourceQuantities

pub record ToolCreateRequest : Type 0 where
  pub name : String
  pub namespace : String
  pub container_image : String
  pub image_tag : String
  pub env_vars : List EnvVar
  pub service_ports : List ServicePort
  pub resources : Option AgentResources
  pub image_pull_policy : Option String
  pub protocol : String
  pub framework : String
  pub deployment_method : String
  pub workload_type : String
  pub create_http_route : Bool

pub record AgentCreateRequest : Type 0 where
  pub name : String
  pub namespace : String
  pub container_image : String
  pub image_tag : String
  pub env_vars : List EnvVar
  pub service_ports : List ServicePort
  pub resources : Option AgentResources
  pub image_pull_policy : Option String
  pub protocol : String
  pub framework : String
  pub deployment_method : String
  pub workload_type : String
  pub create_http_route : Bool
  pub authbridge_enabled : Bool
  pub spire_enabled : Bool
  pub plugin_preset : Option String
  pub plugins : Option (List String)
  pub on_error : Option String
