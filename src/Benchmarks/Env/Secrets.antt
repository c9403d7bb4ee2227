-- ===== src/Benchmarks/Env/Secrets.antt =====
-- The Secrets that the variables of an environment are mounted from.
use autobench.Prelude.{
  String, Bool, true, false, ◌||◌, ◌≡◌, refl, ◌∙◌, Option, none, some, List, [], ◌∷◌, ◌++◌, map,
  select, any, arith, ◌==◌, if◌then◌else◌,
}
use autobench.Models.Workload.{EnvVar, SecretKeyRef, WorkloadLlmConfig, WorkloadOtelConfig}
use autobench.Benchmarks.Env.{
  literal, default_key_secret, rebind_one, rebind_key, without, without_llm_base, llm_env,
  apply_llm, gateway_env, runner_env, otel_env,
}

-- A test of references holds of one that the variable, or one of the variables, is mounted from.
abbrev pub refers : (SecretKeyRef → Bool) → EnvVar → Bool
refers test e = elim e.value_from [ none ↦ false | some ref ↦ test ref ]

abbrev pub mounts : (SecretKeyRef → Bool) → List EnvVar → Bool
mounts test env_vars = any (refers test) env_vars

module _ (test : SecretKeyRef → Bool) where
  pub mounts-append :
      (xs ys : List EnvVar) → mounts test (xs ++ ys) ≡ (mounts test xs || mounts test ys)
  unfolding any
  mounts-append [] ys = refl
  mounts-append (x ∷ xs) ys = ground (arith, mounts-append xs ys)

  mounts-select :
      (keep : EnvVar → Bool) (env_vars : List EnvVar)
      → mounts test env_vars ≡ false
      → mounts test (select keep env_vars) ≡ false
  unfolding any select
  mounts-select keep [] h = refl
  mounts-select keep (e ∷ env_vars) h = ground (arith, mounts-select keep env_vars)

  mounts-llm_env :
      (llm : Option WorkloadLlmConfig) (agent : Bool) → mounts test (llm_env llm agent) ≡ false
  unfolding any llm_env
  mounts-llm_env llm agent = ground arith

  pub mounts-otel_env : (cfg : WorkloadOtelConfig) → mounts test (otel_env cfg) ≡ false
  unfolding any otel_env
  mounts-otel_env cfg = ground arith

  pub mounts-apply_llm :
      (env_vars : List EnvVar) (llm : Option WorkloadLlmConfig) (agent : Bool)
      → mounts test env_vars ≡ false
      → mounts test (apply_llm env_vars llm agent) ≡ false
  unfolding apply_llm without_llm_base
  mounts-apply_llm env_vars llm agent h =
      mounts-append (without_llm_base env_vars) (llm_env llm agent)
      ∙ rw (mounts-select _ env_vars h, mounts-llm_env llm agent)

  mounts-replace :
      (chosen : Bool) (name value : String) (env_vars : List EnvVar)
      → mounts test env_vars ≡ false
      → mounts test (if chosen then without name env_vars ++ literal name value ∷ [] else env_vars)
        ≡ false
  unfolding any without
  mounts-replace false name value env_vars h = h
  mounts-replace true name value env_vars h =
      mounts-append (without name env_vars) (literal name value ∷ [])
      ∙ rw (mounts-select _ env_vars h)

  pub mounts-gateway_env :
      (env_vars : List EnvVar) (gateway : Option String)
      → mounts test env_vars ≡ false
      → mounts test (gateway_env env_vars gateway) ≡ false
  unfolding gateway_env
  mounts-gateway_env env_vars none h = h
  mounts-gateway_env env_vars (some g) h = mounts-replace _ _ g env_vars h

  pub mounts-runner_env :
      (env_vars : List EnvVar) (runner : Option String)
      → mounts test env_vars ≡ false
      → mounts test (runner_env env_vars runner) ≡ false
  unfolding runner_env
  mounts-runner_env env_vars none h = h
  mounts-runner_env env_vars (some r) h = mounts-replace _ _ r env_vars h

abbrev pub is_default : SecretKeyRef → Bool
is_default ref = ref.name == default_key_secret

rebind_one_moves :
    (target : SecretKeyRef) (e : EnvVar)
    → is_default target ≡ false
    → (refers is_default (rebind_one target e) ≡ false) × ((rebind_one target e).name ≡ e.name)
unfolding rebind_one
rebind_one_moves target e h = ground arith

-- After rebinding to another Secret no variable is mounted from the default one; and every
-- variable keeps its name and its place.
pub rebind_key_moves :
    (env_vars : List EnvVar) (target : SecretKeyRef)
    → is_default target ≡ false
    → (mounts is_default (rebind_key env_vars (some target)) ≡ false)
      × (map (λ e. e.name) (rebind_key env_vars (some target)) ≡ map (λ e. e.name) env_vars)
unfolding any rebind_key
rebind_key_moves [] target h = (refl, refl)
rebind_key_moves (e ∷ env_vars) target h =
    let rest = rebind_key_moves env_vars target h in
    let head : (refers is_default (rebind_one target e) ≡ false)
        × ((rebind_one target e).name ≡ e.name) =
      rebind_one_moves target e h in
    (ground (arith, head.0, rest.0), cc (head.1, rest.1))
