-- ===== src/Benchmarks/Requests.antt =====
-- benchmarks/registry.py: the Secrets that a benchmark needs, and the requests that deploy it.
pub mod Base
pub mod Needs
use autobench.Prelude.{
  ℕ, String, Bool, true, true, false, ◌&&◌, Option, none, some, List, [], ◌∷◌, ◌++◌, any, ◌==◌,
  if◌then◌else◌,
}
use autobench.Prelude.Dict.{get}
use autobench.Models.Workload.{
  EnvVar, SecretKeyRef, WorkloadLlmConfig, WorkloadOtelConfig, ServicePort, ToolCreateRequest,
  AgentCreateRequest,
}
use autobench.Benchmarks.Env.{literal, rebind_key, gateway_env, apply_llm, otel_env, runner_env}
use autobench.Benchmarks.Definition.{
  BenchmarkAgentSpec, BenchmarkDefinition, Format, resolve_model, tool_name, agent_name, mcp_url,
}

abbrev pub same_ref : SecretKeyRef → SecretKeyRef → Bool
same_ref a b = a.name == b.name && a.key == b.key

-- `(ref.name, ref.key) not in out`
abbrev pub add_ref : SecretKeyRef → List SecretKeyRef → List SecretKeyRef
add_ref ref out = if any (λ known. same_ref known ref) out then out else out ++ ref ∷ []

abbrev pub add_from : Option SecretKeyRef → List SecretKeyRef → List SecretKeyRef
add_from none out = out
add_from (some ref) out = add_ref ref out

unfoldable pub collect_refs : List EnvVar → List SecretKeyRef → List SecretKeyRef
collect_refs [] out = out
collect_refs (e ∷ envs) out = collect_refs envs (add_from e.value_from out)

abbrev pub spec_env : Option BenchmarkAgentSpec → List EnvVar
spec_env none = []
spec_env (some spec) = spec.extra_env

unfoldable pub required_secrets :
    BenchmarkDefinition → String → Option SecretKeyRef → List SecretKeyRef
required_secrets defn agent key_secret =
    collect_refs (rebind_key (defn.tool_env ++ spec_env (get agent defn.agents)) key_secret) []

abbrev simulator_env : BenchmarkDefinition → Option String → Option WorkloadLlmConfig → List EnvVar
simulator_env defn model llm =
    if defn.user_simulator
    then literal "EXGENTIC_SET_BENCHMARK_USER_SIMULATOR_MODEL" (resolve_model defn model llm) ∷ []
    else []

unfoldable pub tool_env_vars :
    BenchmarkDefinition
    → Option String
    → Option WorkloadLlmConfig
    → Option SecretKeyRef
    → Option String
    → List EnvVar
tool_env_vars defn model llm key_secret gateway =
    gateway_env
      (apply_llm (rebind_key defn.tool_env key_secret ++ simulator_env defn model llm) llm false)
      gateway

abbrev http_port : ℕ → ℕ → ServicePort
http_port port target = record {
  name = "http";
  port = port;
  target_port = target;
  protocol = "TCP";
}

unfoldable pub build_tool_request :
    BenchmarkDefinition
    → String
    → Option String
    → Option WorkloadLlmConfig
    → Option SecretKeyRef
    → Option String
    → ToolCreateRequest
unfolding tool_env_vars
build_tool_request defn namespace model llm key_secret gateway = record {
  name = tool_name defn.name;
  namespace = namespace;
  container_image = defn.mcp_image;
  image_tag = defn.mcp_image_tag;
  env_vars = tool_env_vars defn model llm key_secret gateway;
  service_ports = http_port defn.mcp_port defn.mcp_port ∷ [];
  resources = defn.tool_resources;
  image_pull_policy = none;
  protocol = "mcp";
  framework = "custom";
  deployment_method = "image";
  workload_type = "deployment";
  create_http_route = true;
}

-- The arguments of `build_agent_request` beside the definition and the agent.
pub record AgentOptions : Type 0 where
  pub namespace : String
  pub model : Option String
  pub experiment : String
  pub otel : Option WorkloadOtelConfig
  pub authbridge_enabled : Bool
  pub llm : Option WorkloadLlmConfig
  pub plugin_preset : Option String
  pub plugins : Option (List String)
  pub on_error : Option String
  pub agent_runner : Option String
  pub key_secret : Option SecretKeyRef
  pub gateway : Option String

abbrev enabled_otel : Option WorkloadOtelConfig → List EnvVar
enabled_otel none = []
enabled_otel (some cfg) = if cfg.enabled then otel_env cfg else []

module _ (format : Format) (defn : BenchmarkDefinition) (o : AgentOptions) where
  injected : List EnvVar
  injected =
      literal "MCP_URL" (mcp_url format defn o.namespace none)
      ∷ literal "LLM_MODEL" (resolve_model defn o.model o.llm)
      ∷ literal "EXGENTIC_SET_AGENT_MODEL" (resolve_model defn o.model o.llm)
      ∷ enabled_otel o.otel

  unfoldable pub agent_env_vars : BenchmarkAgentSpec → List EnvVar
  unfolding injected
  agent_env_vars spec =
      runner_env
        (gateway_env (apply_llm (rebind_key spec.extra_env o.key_secret ++ injected) o.llm true)
          o.gateway)
        o.agent_runner

  -- `defn.agents[agent]`: a missing agent is a KeyError.
  unfoldable pub build_agent_request : String → Option AgentCreateRequest
  unfolding agent_env_vars
  build_agent_request agent = elim (get agent defn.agents) [
    | none ↦ none
    | some spec ↦ some (record {
      name = agent_name defn.name agent o.experiment;
      namespace = o.namespace;
      container_image = spec.container_image;
      image_tag = spec.image_tag;
      env_vars = agent_env_vars spec;
      service_ports = http_port 8080 8000 ∷ [];
      resources = spec.resources;
      image_pull_policy = none;
      protocol = "a2a";
      framework = "custom";
      deployment_method = "image";
      workload_type = "deployment";
      create_http_route = true;
      spire_enabled = false;
      authbridge_enabled = o.authbridge_enabled;
      plugin_preset = o.plugin_preset;
      plugins = o.plugins;
      on_error = o.on_error;
    })
  ]
