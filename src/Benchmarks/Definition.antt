-- ===== src/Benchmarks/Definition.antt =====
-- benchmarks/registry.py: the definition of a benchmark, its model, its names and its urls.
use autobench.Prelude.{
  ℕ, String, ◌⧺◌, Bool, not, ◌&&◌, Option, none, some, List, truthy, ◌==◌, if◌then◌else◌,
}
use autobench.Prelude.Dict.{Dict}
use autobench.Prelude.Text.{replace_char, rstrip, decimal}
use autobench.Models.Workload.{EnvVar, AgentResources, WorkloadLlmConfig}

pub record BenchmarkAgentSpec : Type 0 where
  pub container_image : String
  pub image_tag : String
  pub extra_env : List EnvVar
  pub resources : Option AgentResources

pub record BenchmarkDefinition : Type 0 where
  pub name : String
  pub mcp_image : String
  pub mcp_image_tag : String
  pub mcp_port : ℕ
  pub mcp_path : String
  pub mcp_service_suffix : String
  pub tool_env : List EnvVar
  pub tool_resources : Option AgentResources
  pub default_model : String
  pub model_override : Option String
  pub user_simulator : Bool
  pub agents : Dict BenchmarkAgentSpec

-- `a or b` of texts that may be None.
abbrev pub or_else : Option String → String → String
or_else none other = other
or_else (some value) other = if truthy value then value else other

abbrev instance_model : Option WorkloadLlmConfig → Option String
instance_model none = none
instance_model (some llm) = llm.default_model

-- `_resolve_model`
unfoldable pub resolve_model :
    BenchmarkDefinition → Option String → Option WorkloadLlmConfig → String
resolve_model defn model llm =
    or_else model (or_else defn.model_override (or_else (instance_model llm) defn.default_model))

unfoldable pub tool_name : String → String
tool_name benchmark = "exgentic-mcp-" ⧺ benchmark

unfoldable pub agent_name : String → String → String → String
agent_name benchmark agent experiment =
    let base = "exgentic-a2a-" ⧺ (replace_char "_" "-" agent ⧺ ("-" ⧺ benchmark)) in
    if truthy experiment && not (experiment == "default") then base ⧺ ("-" ⧺ experiment) else base

-- `template.format(service=…, namespace=…)` is `str.format`, an argument.
abbrev pub Format : Type 0
Format = (template service namespace : String) → String

unfoldable pub mcp_url : Format → BenchmarkDefinition → String → Option String → String
unfolding tool_name
mcp_url format defn namespace template =
    let in_cluster =
      "http://"
      ⧺ (tool_name defn.name
          ⧺ (defn.mcp_service_suffix
              ⧺ ("."
                  ⧺ (namespace
                      ⧺ (".svc.cluster.local:" ⧺ (decimal defn.mcp_port ⧺ defn.mcp_path)))))) in
    elim template [
      | none ↦ in_cluster
      | some route ↦
          if truthy route
          then rstrip "/" (format route (tool_name defn.name) namespace) ⧺ defn.mcp_path
          else in_cluster
    ]

unfoldable pub agent_url :
    Format → BenchmarkDefinition → String → String → String → Option String → String
unfolding agent_name
agent_url format defn agent namespace experiment template =
    let service = agent_name defn.name agent experiment in
    let in_cluster = "http://" ⧺ (service ⧺ ("." ⧺ (namespace ⧺ ".svc.cluster.local:8080"))) in
    elim template [
      | none ↦ in_cluster
      | some route ↦
          if truthy route then rstrip "/" (format route service namespace) else in_cluster
    ]
