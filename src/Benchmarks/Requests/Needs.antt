-- ===== src/Benchmarks/Requests/Needs.antt =====
-- `required_secrets` and the mounts of the pods of a deploy.
use autobench.Prelude.{
  String, Bool, true, false, not, ◌||◌, ◌≡◌, refl, ◌∙◌, Option, none, some, List, [], ◌∷◌, ◌++◌,
  any, arith, eq_iff,
}
use autobench.Prelude.Dict.{get}
use autobench.Models.Workload.{EnvVar, SecretKeyRef, WorkloadLlmConfig, WorkloadOtelConfig}
use autobench.Benchmarks.Env.{rebind_key}
use autobench.Benchmarks.Env.Secrets.{
  refers, mounts, mounts-append, mounts-otel_env, mounts-apply_llm, mounts-gateway_env,
  mounts-runner_env,
}
use autobench.Benchmarks.Definition.{BenchmarkAgentSpec, BenchmarkDefinition, Format}
use autobench.Benchmarks.Requests.{
  AgentOptions, same_ref, add_ref, add_from, collect_refs, required_secrets, simulator_env,
  tool_env_vars, enabled_otel, injected, agent_env_vars,
}
use mathlib.Core.List.{map-append}

-- The list has the reference.
abbrev pub known : SecretKeyRef → List SecretKeyRef → Bool
known ref out = any (λ k. same_ref k ref) out

-- A reference that the list lacks.
abbrev pub lacks : List SecretKeyRef → SecretKeyRef → Bool
lacks out ref = not (known ref out)

same_ref_refl : (a : SecretKeyRef) → same_ref a a ≡ true
same_ref_refl a = ground (arith, eq_iff a.name a.name, eq_iff a.key a.key)

known-append :
    (ref : SecretKeyRef) (xs ys : List SecretKeyRef)
    → known ref (xs ++ ys) ≡ (known ref xs || known ref ys)
unfolding any
known-append ref [] ys = refl
known-append ref (x ∷ xs) ys = ground (arith, known-append ref xs ys)

known-add_ref :
    (ref new : SecretKeyRef) (out : List SecretKeyRef)
    → (known ref out ≡ true → known ref (add_ref new out) ≡ true)
      × (known new (add_ref new out) ≡ true)
unfolding any
known-add_ref ref new out =
    ground
      (arith, known-append ref out (new ∷ []), known-append new out (new ∷ []), same_ref_refl new)

known-add_from :
    (ref : SecretKeyRef) (from : Option SecretKeyRef) (out : List SecretKeyRef)
    → known ref out ≡ true
    → known ref (add_from from out) ≡ true
known-add_from ref none out h = h
known-add_from ref (some new) out h = (known-add_ref ref new out).0 h

collect_refs_keeps :
    (ref : SecretKeyRef) (envs : List EnvVar) (out : List SecretKeyRef)
    → known ref out ≡ true
    → known ref (collect_refs envs out) ≡ true
unfolding collect_refs
collect_refs_keeps ref [] out h = h
collect_refs_keeps ref (e ∷ envs) out h =
    collect_refs_keeps ref envs (add_from e.value_from out) (known-add_from ref e.value_from out h)

collect_refs_head :
    (e : EnvVar) (from : Option SecretKeyRef) (envs : List EnvVar) (out : List SecretKeyRef)
    → e.value_from ≡ from
    → refers (lacks (collect_refs envs (add_from from out))) e ≡ false
collect_refs_head e none envs out h = rw h
collect_refs_head e (some ref) envs out h =
    rw h (rw (collect_refs_keeps ref envs (add_ref ref out) ((known-add_ref ref ref out).1)))

-- No variable is mounted from a Secret that the collected list lacks.
collect_refs_complete :
    (envs : List EnvVar) (out : List SecretKeyRef)
    → mounts (lacks (collect_refs envs out)) envs ≡ false
unfolding any collect_refs
collect_refs_complete [] out = refl
collect_refs_complete (e ∷ envs) out =
    rw (collect_refs_head e e.value_from envs out refl)
      (collect_refs_complete envs (add_from e.value_from out))

rebind_key-append :
    (xs ys : List EnvVar) (key_secret : Option SecretKeyRef)
    → rebind_key (xs ++ ys) key_secret ≡ rebind_key xs key_secret ++ rebind_key ys key_secret
unfolding rebind_key
rebind_key-append xs ys none = refl
rebind_key-append xs ys (some target) = map-append _ xs ys

-- Neither half of a list of variables is mounted where the whole is not.
mounts_halves :
    (test : SecretKeyRef → Bool) (xs ys : List EnvVar)
    → mounts test (xs ++ ys) ≡ false
    → (mounts test xs ≡ false) × (mounts test ys ≡ false)
mounts_halves test xs ys h = ground (arith, mounts-append test xs ys)

mounts-simulator_env :
    (test : SecretKeyRef → Bool) (defn : BenchmarkDefinition) (model : Option String)
    (llm : Option WorkloadLlmConfig)
    → mounts test (simulator_env defn model llm) ≡ false
unfolding any
mounts-simulator_env test defn model llm = ground arith

mounts-enabled_otel :
    (test : SecretKeyRef → Bool) (otel : Option WorkloadOtelConfig)
    → mounts test (enabled_otel otel) ≡ false
unfolding any
mounts-enabled_otel test none = refl
mounts-enabled_otel test (some cfg) = ground (arith, mounts-otel_env test cfg)

mounts-injected :
    (test : SecretKeyRef → Bool) (format : Format) (defn : BenchmarkDefinition) (o : AgentOptions)
    → mounts test (injected format defn o) ≡ false
unfolding any injected
mounts-injected test format defn o = mounts-enabled_otel test o.otel

mounts-join :
    (test : SecretKeyRef → Bool) (xs ys : List EnvVar)
    → mounts test xs ≡ false
    → mounts test ys ≡ false
    → mounts test (xs ++ ys) ≡ false
mounts-join test xs ys h k = mounts-append test xs ys ∙ rw (h, k)

module _ (defn : BenchmarkDefinition) (agent : String) (spec : BenchmarkAgentSpec) (format : Format)
    (o : AgentOptions) where
  abbrev unnamed : SecretKeyRef → Bool
  unnamed = lacks (required_secrets defn agent o.key_secret)

  parts_complete :
      get agent defn.agents ≡ some spec
      → (mounts unnamed (rebind_key defn.tool_env o.key_secret) ≡ false)
        × (mounts unnamed (rebind_key spec.extra_env o.key_secret) ≡ false)
  unfolding required_secrets
  parts_complete chosen = rw chosen (
      mounts_halves _ _ _ (
        rw (← rebind_key-append defn.tool_env spec.extra_env o.key_secret)
          (collect_refs_complete (rebind_key (defn.tool_env ++ spec.extra_env) o.key_secret) [])))

  -- For an agent of the benchmark and any options of the deploy: no variable of the tool pod or of
  -- the agent pod is mounted from a Secret's key that `required_secrets` does not name.
  pub required_secrets_complete :
      get agent defn.agents ≡ some spec
      → (mounts unnamed (tool_env_vars defn o.model o.llm o.key_secret o.gateway) ≡ false)
        × (mounts unnamed (agent_env_vars format defn o spec) ≡ false)
  unfolding tool_env_vars agent_env_vars
  required_secrets_complete chosen =
      let parts = parts_complete chosen in
      (
        mounts-gateway_env unnamed _ o.gateway (
            mounts-apply_llm unnamed _ o.llm false
              (mounts-join unnamed _ _ parts.0 (mounts-simulator_env unnamed defn o.model o.llm))),
        mounts-runner_env unnamed _ o.agent_runner (
            mounts-gateway_env unnamed _ o.gateway (
              mounts-apply_llm unnamed _ o.llm true
                (mounts-join unnamed _ _ parts.1 (mounts-injected unnamed format defn o)))),
      )
