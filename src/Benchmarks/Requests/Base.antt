-- ===== src/Benchmarks/Requests/Base.antt =====
-- The LLM base of the pods that a deploy creates.
use autobench.Prelude.{
  String, Bool, true, false, ◌≡◌, refl, ap, ◌∙◌, Option, some, [], ◌∷◌, select, is_set, arith, ◌==◌,
}
use autobench.Models.Workload.{WorkloadLlmConfig, SecretKeyRef}
use autobench.Benchmarks.Env.{literal, llm_env, base_env, require_llm_base, missing}
use autobench.Benchmarks.Env.Names.{
  named, IsBase, named-apply_llm, named-base_env, named-gateway_env, named-runner_env,
}
use autobench.Benchmarks.Definition.{BenchmarkAgentSpec, BenchmarkDefinition, Format}
use autobench.Benchmarks.Requests.{AgentOptions, agent_env_vars, tool_env_vars}

named-agent_env_vars :
    (format : Format) (defn : BenchmarkDefinition) (o : AgentOptions) (spec : BenchmarkAgentSpec)
    (name : String)
    → IsBase name
    → ("AUTOBENCH_LLM_GATEWAY" == name) ≡ false
    → ("EXGENTIC_DEFAULT_RUNNER" == name) ≡ false
    → named name (agent_env_vars format defn o spec) ≡ named name (llm_env o.llm true)
unfolding agent_env_vars
named-agent_env_vars format defn o spec name base h k =
    named-runner_env name _ o.agent_runner k
    ∙ named-gateway_env name _ o.gateway h
    ∙ named-apply_llm name _ o.llm true base

llm_env-named :
    (llm : WorkloadLlmConfig) (base name : String)
    → llm.api_base ≡ some base
    → is_set (some base) ≡ true
    → named name (llm_env (some llm) true) ≡ named name (base_env llm true base)
unfolding llm_env
llm_env-named llm base name k h = ground arith

llm_env_none :
    (llm : Option WorkloadLlmConfig) (agent : Bool)
    → require_llm_base llm ≡ missing
    → llm_env llm agent ≡ []
unfolding llm_env require_llm_base
llm_env_none llm agent h = ground arith

named-tool_env_vars :
    (defn : BenchmarkDefinition) (model : Option String) (llm : Option WorkloadLlmConfig)
    (key_secret : Option SecretKeyRef) (gateway : Option String)
    → named "OPENAI_API_BASE" (tool_env_vars defn model llm key_secret gateway)
      ≡ named "OPENAI_API_BASE" (llm_env llm false)
unfolding tool_env_vars
named-tool_env_vars defn model llm key_secret gateway =
    named-gateway_env "OPENAI_API_BASE" _ gateway refl
    ∙ named-apply_llm "OPENAI_API_BASE" _ llm false refl

-- Whatever a benchmark's definition, the agent pod of a deploy with an LLM base has each of the two
-- base variables exactly once, with that base.
pub agent_base_once :
    (format : Format) (defn : BenchmarkDefinition) (o : AgentOptions) (spec : BenchmarkAgentSpec)
    (llm : WorkloadLlmConfig) (base : String)
    → o.llm ≡ some llm
    → llm.api_base ≡ some base
    → is_set (some base) ≡ true
    → (named "OPENAI_API_BASE" (agent_env_vars format defn o spec)
        ≡ literal "OPENAI_API_BASE" base ∷ [])
      × (named "LLM_API_BASE" (agent_env_vars format defn o spec)
          ≡ literal "LLM_API_BASE" base ∷ [])
agent_base_once format defn o spec llm base e k h = (
  named-agent_env_vars format defn o spec "OPENAI_API_BASE" refl refl refl
      ∙ rw e (llm_env-named llm base "OPENAI_API_BASE" k h ∙ (named-base_env llm base).0),
  named-agent_env_vars format defn o spec "LLM_API_BASE" refl refl refl
      ∙ rw e (llm_env-named llm base "LLM_API_BASE" k h ∙ (named-base_env llm base).1),
)

-- Without a base in the configuration, the pods have no base variable at all, not even one that the
-- definition brought: nothing is inherited silently.
pub no_base_none :
    (format : Format) (defn : BenchmarkDefinition) (o : AgentOptions) (spec : BenchmarkAgentSpec)
    → require_llm_base o.llm ≡ missing
    → (named "OPENAI_API_BASE" (agent_env_vars format defn o spec) ≡ [])
      × (named "LLM_API_BASE" (agent_env_vars format defn o spec) ≡ [])
      × (named "OPENAI_API_BASE" (tool_env_vars defn o.model o.llm o.key_secret o.gateway) ≡ [])
unfolding select
no_base_none format defn o spec h = (
  named-agent_env_vars format defn o spec "OPENAI_API_BASE" refl refl refl
      ∙ ap (named "OPENAI_API_BASE") (llm_env_none o.llm true h),
  named-agent_env_vars format defn o spec "LLM_API_BASE" refl refl refl
      ∙ ap (named "LLM_API_BASE") (llm_env_none o.llm true h),
  named-tool_env_vars defn o.model o.llm o.key_secret o.gateway
      ∙ ap (named "OPENAI_API_BASE") (llm_env_none o.llm false h),
)
