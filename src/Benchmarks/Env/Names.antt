-- ===== src/Benchmarks/Env/Names.antt =====
-- Under which names, and how often, the variables of an environment stand.
use autobench.Prelude.{
  String, Bool, true, false, ◌||◌, ◌≡◌, refl, ◌∙◌, Option, none, some, List, [], ◌∷◌, ◌++◌, select,
  is_set, arith, ◌==◌, eq_iff, if◌then◌else◌,
}
use mathlib.Core.List.{append-nil}
use autobench.Models.Workload.{EnvVar, WorkloadLlmConfig}
use autobench.Benchmarks.Env.{
  literal, without, without_llm_base, llm_env, apply_llm, gateway_env, runner_env, base_env,
}

-- The variables of a name.
abbrev pub named : String → List EnvVar → List EnvVar
named name env_vars = select (λ e. e.name == name) env_vars

pub named-append :
    (name : String) (xs ys : List EnvVar) → named name (xs ++ ys) ≡ named name xs ++ named name ys
unfolding select
named-append name [] ys = refl
named-append name (x ∷ xs) ys = ground (arith, named-append name xs ys)

named-without_self :
    (name : String) (env_vars : List EnvVar) → named name (without name env_vars) ≡ []
unfolding select without
named-without_self name [] = refl
named-without_self name (e ∷ env_vars) = ground (arith, named-without_self name env_vars)

named-without_ne :
    (name other : String) (env_vars : List EnvVar)
    → (other == name) ≡ false
    → named name (without other env_vars) ≡ named name env_vars
unfolding select without
named-without_ne name other [] h = refl
named-without_ne name other (e ∷ env_vars) h = ground (
  arith,
  named-without_ne name other env_vars h,
  eq_iff e.name name,
  eq_iff e.name other,
  eq_iff other name,
)

named-without_llm_base :
    (name : String) (env_vars : List EnvVar)
    → (name == "OPENAI_API_BASE" || name == "LLM_API_BASE") ≡ true
    → named name (without_llm_base env_vars) ≡ []
unfolding select without_llm_base
named-without_llm_base name [] h = refl
named-without_llm_base name (e ∷ env_vars) h = ground (
  arith,
  named-without_llm_base name env_vars h,
  eq_iff e.name name,
  eq_iff e.name "OPENAI_API_BASE",
  eq_iff e.name "LLM_API_BASE",
  eq_iff name "OPENAI_API_BASE",
  eq_iff name "LLM_API_BASE",
)

-- Dropping a name and injecting it again: it stands once, and the other names stay.
named-replace_self :
    (name value : String) (env_vars : List EnvVar)
    → named name (without name env_vars ++ literal name value ∷ []) ≡ literal name value ∷ []
unfolding select
named-replace_self name value env_vars = ground (
  arith,
  named-append name (without name env_vars) (literal name value ∷ []),
  named-without_self name env_vars,
  eq_iff name name,
)

named-replace_ne :
    (chosen : Bool) (name other value : String) (env_vars : List EnvVar)
    → (other == name) ≡ false
    → named name (if chosen then without other env_vars ++ literal other value ∷ [] else env_vars)
      ≡ named name env_vars
unfolding select
named-replace_ne false name other value env_vars h = refl
named-replace_ne true name other value env_vars h =
    named-append name (without other env_vars) (literal other value ∷ [])
    ∙ simp (h, append-nil) (named-without_ne name other env_vars h)

pub named-gateway_env :
    (name : String) (env_vars : List EnvVar) (gateway : Option String)
    → ("AUTOBENCH_LLM_GATEWAY" == name) ≡ false
    → named name (gateway_env env_vars gateway) ≡ named name env_vars
unfolding gateway_env
named-gateway_env name env_vars none h = refl
named-gateway_env name env_vars (some g) h = named-replace_ne _ name _ g env_vars h

pub named-runner_env :
    (name : String) (env_vars : List EnvVar) (runner : Option String)
    → ("EXGENTIC_DEFAULT_RUNNER" == name) ≡ false
    → named name (runner_env env_vars runner) ≡ named name env_vars
unfolding runner_env
named-runner_env name env_vars none h = refl
named-runner_env name env_vars (some r) h = named-replace_ne _ name _ r env_vars h

-- A given gateway's label stands once in the labelled environment.
pub gateway_env_once :
    (env_vars : List EnvVar) (gateway : String)
    → is_set (some gateway) ≡ true
    → named "AUTOBENCH_LLM_GATEWAY" (gateway_env env_vars (some gateway))
      ≡ literal "AUTOBENCH_LLM_GATEWAY" gateway ∷ []
unfolding gateway_env
gateway_env_once env_vars gateway h =
    rw h (named-replace_self "AUTOBENCH_LLM_GATEWAY" gateway env_vars)

-- An instance's runner stands once in the environment, whatever the definition had.
pub runner_env_once :
    (env_vars : List EnvVar) (runner : String)
    → is_set (some runner) ≡ true
    → named "EXGENTIC_DEFAULT_RUNNER" (runner_env env_vars (some runner))
      ≡ literal "EXGENTIC_DEFAULT_RUNNER" runner ∷ []
unfolding runner_env
runner_env_once env_vars runner h =
    rw h (named-replace_self "EXGENTIC_DEFAULT_RUNNER" runner env_vars)

abbrev pub IsBase : String → Type 0
IsBase name = (name == "OPENAI_API_BASE" || name == "LLM_API_BASE") ≡ true

pub named-apply_llm :
    (name : String) (env_vars : List EnvVar) (llm : Option WorkloadLlmConfig) (agent : Bool)
    → IsBase name
    → named name (apply_llm env_vars llm agent) ≡ named name (llm_env llm agent)
unfolding apply_llm
named-apply_llm name env_vars llm agent h =
    named-append name (without_llm_base env_vars) (llm_env llm agent)
    ∙ rw (named-without_llm_base name env_vars h)

pub named-base_env :
    (llm : WorkloadLlmConfig) (base : String)
    → (named "OPENAI_API_BASE" (base_env llm true base) ≡ literal "OPENAI_API_BASE" base ∷ [])
      × (named "LLM_API_BASE" (base_env llm true base) ≡ literal "LLM_API_BASE" base ∷ [])
unfolding select
named-base_env llm base = ground arith
