-- ===== src/Benchmarks/Env.antt =====
-- benchmarks/registry.py: the environment of a workload, and how an instance and a deploy override
-- it. A name that is overridden is dropped and injected again, so that it never stands twice.
pub mod Names
pub mod Secrets
use autobench.Prelude.{
  String, Bool, true, false, not, ◌&&◌, ◌||◌, Option, none, some, List, [], ◌∷◌, ◌++◌, map, select,
  is_set, ◌==◌, if◌then◌else◌,
}
use autobench.Models.Workload.{EnvVar, SecretKeyRef, WorkloadLlmConfig, WorkloadOtelConfig}

abbrev pub default_key_secret : String
default_key_secret = "openai-secret"

abbrev pub literal : String → String → EnvVar
literal name value = record { name = name; value = some value; value_from = none }

-- `_secret_env`
abbrev pub secret_env : String → String → String → EnvVar
secret_env name secret key = record {
  name = name;
  value = none;
  value_from = some (record { name = secret; key = key });
}

-- `require_llm_base`: a deploy whose instance names no LLM gateway is rejected.
pub data LlmBase : Type 0 where
  present missing : LlmBase

unfoldable pub require_llm_base : Option WorkloadLlmConfig → LlmBase
require_llm_base none = missing
require_llm_base (some llm) = if is_set llm.api_base then present else missing

abbrev pub no_llm : WorkloadLlmConfig
no_llm = record {
  api_base = none;
  default_model = none;
  disable_proxy = false;
  no_proxy = none;
  gateway_label = none;
}

unfoldable pub effective_llm : Option WorkloadLlmConfig → Option String → Option WorkloadLlmConfig
effective_llm llm api_base =
    if is_set api_base
    then some (record (elim llm [ none ↦ no_llm | some own ↦ own ]) { api_base = api_base })
    else llm

rebind_one : SecretKeyRef → EnvVar → EnvVar
rebind_one target e = elim e.value_from [
  | none ↦ e
  | some ref ↦
      if ref.name == default_key_secret then secret_env e.name target.name target.key else e
]

-- `_rebind_key`; the pair `(name, key)` is a reference.
unfoldable pub rebind_key : List EnvVar → Option SecretKeyRef → List EnvVar
unfolding rebind_one
rebind_key env_vars none = env_vars
rebind_key env_vars (some target) = map (rebind_one target) env_vars

-- `[e for e in env_vars if e.name != name]`
unfoldable pub without : String → List EnvVar → List EnvVar
without name env_vars = select (λ e. not (e.name == name)) env_vars

-- `_gateway_env`
unfoldable pub gateway_env : List EnvVar → Option String → List EnvVar
unfolding without
gateway_env env_vars none = env_vars
gateway_env env_vars (some gateway) =
    if is_set (some gateway)
    then without "AUTOBENCH_LLM_GATEWAY" env_vars ++ literal "AUTOBENCH_LLM_GATEWAY" gateway ∷ []
    else env_vars

-- `if e.name not in _LLM_BASE_ENV`
unfoldable pub without_llm_base : List EnvVar → List EnvVar
without_llm_base env_vars =
    select (λ e. not (e.name == "OPENAI_API_BASE" || e.name == "LLM_API_BASE")) env_vars

abbrev pub proxy_env : WorkloadLlmConfig → List EnvVar
proxy_env llm =
    (if llm.disable_proxy then literal "HTTP_PROXY" "" ∷ literal "http_proxy" "" ∷ [] else [])
    ++ (elim llm.no_proxy [
      | none ↦ []
      | some list ↦
          if is_set (some list) then literal "NO_PROXY" list ∷ literal "no_proxy" list ∷ [] else []
    ])

abbrev pub base_env : WorkloadLlmConfig → Bool → String → List EnvVar
base_env llm agent base =
    literal "OPENAI_API_BASE" base
    ∷ (if agent then literal "LLM_API_BASE" base ∷ proxy_env llm else [])

-- What is appended for a configuration: nothing without a base.
unfoldable pub llm_env : Option WorkloadLlmConfig → Bool → List EnvVar
llm_env none agent = []
llm_env (some llm) agent = elim llm.api_base [
  | none ↦ []
  | some base ↦ if is_set (some base) then base_env llm agent base else []
]

-- `_apply_llm`: with or without a base, the old base variables go.
unfoldable pub apply_llm : List EnvVar → Option WorkloadLlmConfig → Bool → List EnvVar
unfolding without_llm_base llm_env
apply_llm env_vars llm agent = without_llm_base env_vars ++ llm_env llm agent

abbrev optional : String → Option String → List EnvVar
optional name none = []
optional name (some value) = if is_set (some value) then literal name value ∷ [] else []

-- `_otel_env`
unfoldable pub otel_env : WorkloadOtelConfig → List EnvVar
otel_env cfg =
    literal "EXGENTIC_OTEL_ENABLED" "true"
    ∷ ((elim cfg.endpoint [
      | none ↦ []
      | some endpoint ↦
          if is_set (some endpoint)
          then (literal "OTEL_EXPORTER_OTLP_ENDPOINT" endpoint
              ∷ literal "OTEL_EXPORTER_OTLP_PROTOCOL" cfg.protocol
              ∷ literal "OTEL_EXPORTER_OTLP_INSECURE" (if cfg.insecure then "true" else "false")
              ∷ [])
          else []
    ])
        ++ (optional "OTEL_SERVICE_NAME" cfg.service_name
            ++ optional "OTEL_RESOURCE_ATTRIBUTES" cfg.resource_attributes))

-- `_AGENT_RUNNER_ENV` is dropped and injected again where the instance overrides it.
unfoldable pub runner_env : List EnvVar → Option String → List EnvVar
unfolding without
runner_env env_vars none = env_vars
runner_env env_vars (some runner) =
    if is_set (some runner)
    then without "EXGENTIC_DEFAULT_RUNNER" env_vars ++ literal "EXGENTIC_DEFAULT_RUNNER" runner ∷ []
    else env_vars
