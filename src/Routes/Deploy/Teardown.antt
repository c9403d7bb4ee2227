-- ===== src/Routes/Deploy/Teardown.antt =====
-- routes/benchmarks.py, `teardown_benchmark`: the record of the deployment.
use autobench.Prelude.{
  String, ◌⧺◌, Bool, sym, ◌≡◌, refl, ap, ◌∙◌, Option, none, some, if◌then◌else◌,
}
use autobench.Prelude.Dict.{get}
use autobench.Models.Config.{InstanceConfig}
use autobench.Benchmarks.Definition.{BenchmarkDefinition, Format, agent_name, tool_name}
use autobench.Benchmarks.Catalog.{benchmarks}
use autobench.Deployments
use autobench.Deployments.{Key, DeploymentRecords, same_key, get-drop}
use autobench.Routes.Start.{Answer, http_error}
use autobench.Routes.Platform.{Reply, replied, refused, broken, Platform, State, go_on}
use autobench.Routes.Deploy.{forget_and_delete, teardown_benchmark}
use mathlib.Core.Path.{subst}

go_on_same :
    {W A B : Type 0} (before : DeploymentRecords) (reply : Reply A)
    (next : A → State W → Answer B × State W) (s : State W)
    → s.deployments ≡ before
    → ((a : A) → (next a s).1.deployments ≡ before)
    → (go_on reply next s).1.deployments ≡ before
go_on_same before (replied a) next s same go = go a
go_on_same before (refused status text) next s same go = same
go_on_same before (broken text) next s same go = same

module _ {W : Type 0} (platform : Platform W) (format : Format)
    (is_secret_name is_secret_key : String → Bool) (own : InstanceConfig) where
  abbrev pub torn_down : String → String → String → String → Key
  torn_down name namespace agent experiment = record {
    iss = own.iss;
    namespace = namespace;
    benchmark = name;
    agent = agent;
    experiment = experiment;
  }

  forget_and_delete_lem :
      (name namespace agent experiment : String) (s : State W)
      → (forget_and_delete platform format is_secret_name is_secret_key own name namespace agent
          experiment s).1.deployments
        ≡ Deployments.drop (torn_down name namespace agent experiment) s.deployments
  unfolding forget_and_delete
  forget_and_delete_lem name namespace agent experiment s =
      go_on_same _ (platform.delete_agent namespace (agent_name name agent experiment) s.world).0 _
        _ refl
        λ _.
          go_on_same _
            (platform.delete_tool namespace (tool_name name)
              (platform.delete_agent namespace (agent_name name agent experiment) s.world).1).0
            _ _ refl λ _. refl

  -- Whatever the platform answers to the teardown of a known benchmark, the record of the deployment
  -- is gone, and what is found under any other key is as it was.
  pub teardown_forgets :
      (name namespace agent experiment : String) (k : Key) (s : State W)
      {defn : BenchmarkDefinition}
      → get name benchmarks ≡ some defn
      → Deployments.get k
          (teardown_benchmark platform format is_secret_name is_secret_key own name namespace agent
            experiment s).1.deployments
        ≡ (if same_key (torn_down name namespace agent experiment) k
            then none
            else Deployments.get k s.deployments)
  unfolding teardown_benchmark
  teardown_forgets name namespace agent experiment k s known =
      subst
        (λ (found : Option BenchmarkDefinition).
          Deployments.get k
            (elim found as (λ _. Answer (Unit {0}) × State W) [
              | none ↦ (http_error 404 ("unknown benchmark: " ⧺ name), s)
              | some defn ↦
                  forget_and_delete platform format is_secret_name is_secret_key own name namespace
                    agent experiment s
            ]).1.deployments
          ≡ (if same_key (torn_down name namespace agent experiment) k
              then none
              else Deployments.get k s.deployments))
        (sym known)
        (ap (Deployments.get k) (forget_and_delete_lem name namespace agent experiment s)
          ∙ get-drop (torn_down name namespace agent experiment) k s.deployments)
