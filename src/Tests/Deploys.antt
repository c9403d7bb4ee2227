-- ===== src/Tests/Deploys.antt =====
-- A deploy of gsm8k and one of tau2.
use autobench.Prelude.{◌⧺◌, true, false, ◌≡◌, refl, none, some, [], ◌∷◌}
use autobench.Prelude.Dict.{get}
use autobench.Models.Workload.{SecretKeyRef, WorkloadLlmConfig}
use autobench.Benchmarks.Env.{literal}
use autobench.Benchmarks.Env.Names.{named}
use autobench.Benchmarks.Env.Secrets.{mounts}
use autobench.Benchmarks.Definition.{BenchmarkAgentSpec, Format}
use autobench.Benchmarks.Requests.{AgentOptions, agent_env_vars, tool_env_vars, required_secrets}
use autobench.Benchmarks.Requests.Base.{agent_base_once}
use autobench.Benchmarks.Requests.Needs.{lacks, required_secrets_complete}
use autobench.Benchmarks.Catalog.{gsm8k, gsm8k_agent, tau2}

abbrev format : Format
format template service namespace = "https://" ⧺ (service ⧺ ("-" ⧺ namespace))

abbrev llm : WorkloadLlmConfig
llm = record {
  api_base = some "http://litellm:4000";
  default_model = some "openai/gpt-5-mini";
  disable_proxy = true;
  no_proxy = some "localhost";
  gateway_label = some "ete";
}

abbrev own_key : SecretKeyRef
own_key = record { name = "team-key"; key = "token" }

abbrev options : AgentOptions
options = record {
  namespace = "team1";
  model = none;
  experiment = "default";
  otel = none;
  authbridge_enabled = true;
  llm = some llm;
  plugin_preset = none;
  plugins = none;
  on_error = none;
  agent_runner = some "service";
  key_secret = some own_key;
  gateway = some "ete";
}

-- The agent of every sample benchmark, with a base of its own in the definition.
abbrev spec : BenchmarkAgentSpec
spec = record {
  container_image = "ghcr.io/exgentic/exgentic-a2a-tool_calling:latest";
  image_tag = "latest";
  extra_env = literal "LLM_API_BASE" "http://elsewhere" ∷ [];
  resources = none;
}

agent_base_once_example :
    (named "OPENAI_API_BASE" (agent_env_vars format tau2 options spec)
      ≡ literal "OPENAI_API_BASE" "http://litellm:4000" ∷ [])
    × (named "LLM_API_BASE" (agent_env_vars format tau2 options spec)
        ≡ literal "LLM_API_BASE" "http://litellm:4000" ∷ [])
agent_base_once_example =
    agent_base_once format tau2 options spec llm "http://litellm:4000" refl refl refl

required_secrets_complete_example :
    (mounts
        (lacks (required_secrets gsm8k "tool_calling" (some own_key)))
        (tool_env_vars gsm8k none (some llm) (some own_key) (some "ete"))
      ≡ false)
    × (mounts
          (lacks (required_secrets gsm8k "tool_calling" (some own_key)))
          (agent_env_vars format gsm8k options gsm8k_agent)
        ≡ false)
unfolding get
required_secrets_complete_example =
    required_secrets_complete gsm8k "tool_calling" gsm8k_agent format options refl
