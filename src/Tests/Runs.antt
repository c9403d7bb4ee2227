-- ===== src/Tests/Runs.antt =====
-- Whole runs, tasks, agent turns and sessions.
use autobench.Prelude.{
  ◌⊎◌, ltb, ◌+◌, arith, Option, ℕ, ◌≤◌, String, false, ◌≡◌, refl, sym, some, List, [], ◌∷◌, ◌++◌,
  count_if, Bool-cases, inl, inr, if◌then◌else◌,
}
use autobench.Prelude.Outcome.{Action, Raised, return, interrupt, raise, failure}
use autobench.Models.Run.{RunState}
use autobench.Runner.Batch.{
  Slot, aborted, is_done, slot, Batch, abort, Steps, here, next, limit_tasks,
}
use autobench.Runner.Batch.Accounting.{results_of}
use autobench.Runner.Batch.Booking.{AllDone}
use autobench.Runner.Benchmark.{Gather, Live, run_benchmark}
use autobench.Runner.Benchmark.Complete.{run_benchmark_accounts, IsGather}
use autobench.Routes.Settle.{Read, collect_records_soft}
use autobench.Routes.Settle.Ends.{Ended, collect_records_soft_ends}
use autobench.Prelude.Dict.{get as get_key}
use autobench.Models.Run.{DeploymentLlm}
use autobench.Benchmarks.Definition.{BenchmarkDefinition}
use autobench.Benchmarks.Catalog.{benchmarks}
use autobench.Runner.Registry.{Task, new_run, get_run}
use autobench.Routes.Start.{Lookup, resource, login_done, start_run}
use autobench.Routes.Start.Checked.{AreReady, IsStarted, start_run_checked}
use autobench.Tests.Samples.{request, clients, meta, run}
use mathlib.Core.List.{append_assoc}
use mathlib.Core.Path.{subst}

abbrev stop : Raised
stop = interrupt "CancelledError()"

-- A `gather` under which every task is aborted at its first await.
abbrev ended_slot : Slot → Slot
ended_slot s = slot s.task_id (aborted stop)

abbrev abort_all : List Slot → List Slot
abort_all [] = []
abort_all (s ∷ slots) = (if is_done s.phase then s else ended_slot s) ∷ abort_all slots

abbrev gather : Gather ℕ
gather w b = (return tt, w, record b { slots = abort_all b.slots })

AllDone-abort_all : (slots : List Slot) → AllDone (abort_all slots)
AllDone-abort_all [] = tt
AllDone-abort_all (s ∷ slots) = elim (Bool-cases (is_done s.phase)) [
  | inl done ↦ (rw done done, AllDone-abort_all slots)
  | inr live ↦ (rw live refl, AllDone-abort_all slots)
]

abbrev batch : RunState → List Slot → Batch
batch r slots = record { run = r; slots = slots }

module _ (b : Batch) where
  abbrev Reaches : List Slot → Type 0
  Reaches slots = Steps clients false meta (some 300) 2 b (batch b.run slots)

  -- One slot after another.
  reach : (xs ys : List Slot) → Reaches (xs ++ ys) → Reaches (xs ++ abort_all ys)
  reach xs [] h = h
  reach xs (s ∷ ys) h = elim (Bool-cases (is_done s.phase)) [
    | inl done ↦ rw done (
        subst Reaches (append_assoc xs (s ∷ []) (abort_all ys))
          (reach (xs ++ s ∷ []) ys (subst Reaches (sym (append_assoc xs (s ∷ []) ys)) h)))
    | inr live ↦ rw live (
        subst Reaches (append_assoc xs (ended_slot s ∷ []) (abort_all ys)) (
          reach (xs ++ ended_slot s ∷ []) ys (
            subst Reaches (sym (append_assoc xs (ended_slot s ∷ []) ys))
              (next h (abort xs ys s.task_id s.phase stop refl live refl)))))
  ]

gather-IsGather : IsGather clients false meta (some 300) 2 gather
gather-IsGather = record {
  steps = λ w b. reach b [] b.slots here;
  ends = λ w b _. AllDone-abort_all b.slots;
}

abbrev repr : Raised → String
repr _ = "CancelledError()"

abbrev live : Live ℕ
live = record { world = 0; run = run }

-- A flush that fails.
abbrev flush : Option (Action ℕ (Unit {0}))
flush = some (λ now. (raise (failure "ExportError()"), now + 1))

finishes : (run_benchmark clients gather repr (some 1) flush live).0 ≡ return tt
unfolding run_benchmark
finishes = refl

run_benchmark_accounts_example :
    (results_of "a" (run_benchmark clients gather repr (some 1) flush live).1.run.results ≤ 1)
    × (1 ≤ results_of "a" (run_benchmark clients gather repr (some 1) flush live).1.run.results)
unfolding count_if limit_tasks
run_benchmark_accounts_example =
    run_benchmark_accounts clients gather repr live false meta (some 300) 2 gather-IsGather (some 1)
      flush ("a" ∷ "b" ∷ []) "a" refl finishes

abbrev found : String → Lookup
found _ = resource (some "Ready")

abbrev deploy_llm : DeploymentLlm
deploy_llm = record { gateway = "ete"; model = "openai/gpt-5-mini"; key_secret = "team-key:token" }

abbrev job : Task
job = record { number = 1; is_done = false }

-- An endpoint template that `str.format` cannot fill.
abbrev bad_template : String
bad_template = "KeyError('ns')"

start_run_checked_example :
    ((start_run "gsm8k" request
        (some deploy_llm)
        login_done
        (some bad_template)
        found
        found
        "run1"
        "https://idp/a"
        job
        []).1
      ≡ [])
    ⊎ (((defn : BenchmarkDefinition) × (get_key "gsm8k" benchmarks ≡ some defn)
          × AreReady "gsm8k" request (some deploy_llm) found found defn)
        × (get_run "gsm8k" "run1" "https://idp/a"
              (start_run "gsm8k" request
                (some deploy_llm)
                login_done
                (some bad_template)
                found
                found
                "run1"
                "https://idp/a"
                job
                []).1
            ≡ some (record (new_run "run1" "gsm8k" request) { llm = some deploy_llm }))
        × IsStarted "gsm8k" request
            (some deploy_llm)
            found
            found
            "run1"
            "https://idp/a"
            job
            (some bad_template)
            (start_run "gsm8k" request
              (some deploy_llm)
              login_done
              (some bad_template)
              found
              found
              "run1"
              "https://idp/a"
              job
              []))
start_run_checked_example =
    start_run_checked "gsm8k" request (some deploy_llm) found found login_done (some bad_template)
      "run1" "https://idp/a" job []

-- The records come with the third read, and are the same in the fourth.
abbrev late_records : Action ℕ (Option (Read (Unit {0})))
late_records w = (
  return (
      some (record {
        records =
            if ltb w 4
            then []
            else record {
              llm_count = 1;
              tool_count = 2;
              llm_input_tokens = 900;
              llm_output_tokens = 40;
            }
              ∷ [];
        spans = tt;
      })),
  w,
)

abbrev nothing : Read (Unit {0})
nothing = record { records = []; spans = tt }

abbrev pause : Action ℕ (Unit {0})
pause w = (return tt, w + 2)

collect_records_soft_ends_example :
    Ended
      (λ w. w)
      late_records
      pause
      nothing
      (collect_records_soft (λ w. w) late_records pause 22 20 nothing 0)
collect_records_soft_ends_example =
    collect_records_soft_ends (λ w. w) late_records pause (λ w. omega arith) (λ w. omega arith)
      nothing 20 0
