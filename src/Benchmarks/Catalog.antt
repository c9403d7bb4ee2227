-- ===== src/Benchmarks/Catalog.antt =====
-- benchmarks/registry.py, `BENCHMARKS`: the benchmarks that can be deployed and run.
use autobench.Prelude.{String, true, false, ◌≡◌, none, some, [], ◌∷◌, arith, eq_iff}
use autobench.Prelude.Dict.{Dict, get}
use autobench.Models.Workload.{EnvVar, AgentResources}
use autobench.Benchmarks.Env.{literal, secret_env}
use autobench.Benchmarks.Definition.{BenchmarkAgentSpec, BenchmarkDefinition}

-- `AgentResources` with both quantities of both kinds
abbrev resources : (cpu memory max_cpu max_memory : String) → AgentResources
resources cpu memory max_cpu max_memory = record {
  requests = some (record { cpu = some cpu; memory = some memory });
  limits = some (record { cpu = some max_cpu; memory = some max_memory });
}

abbrev tool_resources : AgentResources
tool_resources = resources "500m" "512Mi" "4" "4Gi"

abbrev agent_resources : AgentResources
agent_resources = resources "500m" "512Mi" "4" "2Gi"

abbrev appworld_agent_resources : AgentResources
appworld_agent_resources = resources "500m" "1Gi" "4" "8Gi"

abbrev agent_runner_env : EnvVar
agent_runner_env = literal "EXGENTIC_DEFAULT_RUNNER" "direct"

abbrev agent_request_timeout_env : EnvVar
agent_request_timeout_env = literal "REQUEST_TIMEOUT" "120"

abbrev pub gsm8k_agent : BenchmarkAgentSpec
gsm8k_agent = record {
  container_image = "ghcr.io/exgentic/exgentic-a2a-tool_calling:latest";
  image_tag = "latest";
  extra_env =
      secret_env "OPENAI_API_KEY" "openai-secret" "apikey"
      ∷ literal "EXGENTIC_SET_AGENT_ENABLE_TOOL_SHORTLISTING" "true"
      ∷ agent_runner_env
      ∷ agent_request_timeout_env
      ∷ literal "LITELLM_LOCAL_MODEL_COST_MAP" "True"
      ∷ literal "EXGENTIC_LITELLM_CACHING" "false"
      ∷ [];
  resources = some agent_resources;
}

abbrev pub gsm8k : BenchmarkDefinition
gsm8k = record {
  name = "gsm8k";
  mcp_image = "ghcr.io/exgentic/exgentic-mcp-gsm8k:latest";
  mcp_image_tag = "latest";
  mcp_port = 8000;
  mcp_path = "/mcp";
  mcp_service_suffix = "-mcp";
  tool_env =
      literal "BENCHMARK_NAME" "gsm8k"
      ∷ secret_env "HF_TOKEN" "hf-secret" "hf-token"
      ∷ literal "EXGENTIC_SET_BENCHMARK_RUNNER" "direct"
      ∷ [];
  tool_resources = some tool_resources;
  default_model = "openai/Qwen3.6-35B-A3B";
  model_override = none;
  user_simulator = false;
  agents = ("tool_calling", gsm8k_agent) ∷ [];
}

abbrev pub tau2 : BenchmarkDefinition
tau2 = record {
  name = "tau2";
  mcp_image = "ghcr.io/exgentic/exgentic-mcp-tau2:latest";
  mcp_image_tag = "latest";
  mcp_port = 8000;
  mcp_path = "/mcp";
  mcp_service_suffix = "-mcp";
  tool_env =
      literal "BENCHMARK_NAME" "tau2"
      ∷ secret_env "OPENAI_API_KEY" "openai-secret" "apikey"
      ∷ literal "EXGENTIC_SET_BENCHMARK_ACTION_TIMEOUT" "1000"
      ∷ literal "EXGENTIC_LITELLM_CACHING" "false"
      ∷ [];
  tool_resources = some tool_resources;
  default_model = "openai/Qwen3.6-35B-A3B";
  model_override = some "openai/aws/claude-sonnet-5";
  user_simulator = true;
  agents =
      (
        "tool_calling",
        record {
          container_image = "ghcr.io/exgentic/exgentic-a2a-tool_calling:latest";
          image_tag = "latest";
          extra_env =
              secret_env "OPENAI_API_KEY" "openai-secret" "apikey"
              ∷ literal "EXGENTIC_SET_AGENT_ENABLE_TOOL_SHORTLISTING" "true"
              ∷ agent_runner_env
              ∷ agent_request_timeout_env
              ∷ literal "LITELLM_LOCAL_MODEL_COST_MAP" "True"
              ∷ literal "EXGENTIC_LITELLM_CACHING" "false"
              ∷ [];
          resources = some agent_resources;
        },
      )
      ∷ [];
}

abbrev pub appworld : BenchmarkDefinition
appworld = record {
  name = "appworld";
  mcp_image = "ghcr.io/exgentic/exgentic-mcp-appworld:latest";
  mcp_image_tag = "latest";
  mcp_port = 8000;
  mcp_path = "/mcp";
  mcp_service_suffix = "-mcp";
  tool_env = literal "BENCHMARK_NAME" "appworld" ∷ [];
  tool_resources = some tool_resources;
  default_model = "openai/Qwen3.6-35B-A3B";
  model_override = none;
  user_simulator = false;
  agents =
      (
        "tool_calling",
        record {
          container_image = "ghcr.io/exgentic/exgentic-a2a-tool_calling:latest";
          image_tag = "latest";
          extra_env =
              secret_env "OPENAI_API_KEY" "openai-secret" "apikey"
              ∷ literal "EXGENTIC_SET_AGENT_ENABLE_TOOL_SHORTLISTING" "true"
              ∷ agent_runner_env
              ∷ agent_request_timeout_env
              ∷ literal "LITELLM_LOCAL_MODEL_COST_MAP" "True"
              ∷ literal "EXGENTIC_LITELLM_CACHING" "false"
              ∷ literal "EXGENTIC_MCP_TIMEOUT_SECONDS" "300"
              ∷ [];
          resources = some appworld_agent_resources;
        },
      )
      ∷ [];
}

unfoldable pub benchmarks : Dict BenchmarkDefinition
benchmarks = ("gsm8k", gsm8k) ∷ ("tau2", tau2) ∷ ("appworld", appworld) ∷ []

-- The name that a benchmark is found under is its own.
pub found_name :
    (name : String) (defn : BenchmarkDefinition)
    → get name benchmarks ≡ some defn
    → defn.name ≡ name
unfolding benchmarks get
found_name name defn h =
    ground (arith, eq_iff "gsm8k" name, eq_iff "tau2" name, eq_iff "appworld" name)
