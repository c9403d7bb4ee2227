-- ===== src/Runner/Benchmark/Complete.antt =====
-- engine.py, `run_benchmark`: the results and the status of a concluded run.
use autobench.Prelude.{ℕ, ◌≤◌, min, String, Bool, ◌≡◌, Option, none, some, List, [], arith}
use autobench.Prelude.Outcome.{Action, Outcome, Raised, return}
use autobench.Models.Run.{RunState, succeeded}
use autobench.Runner.Clients.{Clients}
use autobench.Runner.Task.{Meta}
use autobench.Runner.Batch.{Batch, Steps, begin, limit_tasks, book, conclude}
use mathlib.Core.Path.{subst}
use autobench.Runner.Batch.Accounting.{Steps-accounts, results_of, times}
use autobench.Runner.Batch.Booking.{AllDone, book_accounts}
use autobench.Runner.Benchmark.{Gather, Live, run_benchmark}

module _ (c : Clients) (traced : Bool) (meta : Meta) (task_timeout : Option ℕ) (max_parallel : ℕ)
    (repr : Raised → String) where
  -- For every interleaving of the batch's steps up to the end of all its tasks: the concluded run
  -- has a result for every listed task, none for another, and for no id more than it is listed; so
  -- a task that is listed once has exactly one result.
  pub conclude_accounts :
      (run : RunState) (task_ids : List String) (b : Batch) (wall now : ℕ) (t : String)
      → Steps c traced meta task_timeout max_parallel (begin run task_ids) b
      → AllDone b.slots
      → (results_of t (conclude repr wall now b).results ≤ times t task_ids)
        × (min 1 (times t task_ids) ≤ results_of t (conclude repr wall now b).results)
  unfolding conclude
  conclude_accounts run task_ids b wall now t steps done =
      let h = Steps-accounts c traced meta task_timeout max_parallel task_ids run steps in
      subst
        (λ ids.
          (results_of t (book repr b.slots b.run.results) ≤ times t ids)
          × (min 1 (times t ids) ≤ results_of t (book repr b.slots b.run.results)))
        h.0 (book_accounts repr t b.slots b.run.results done (h.1 t))

module _ (c : Clients) (gather : Gather c.World) (repr : Raised → String) where
  -- Where `run_benchmark` returns, the run is marked succeeded.
  pub run_benchmark_succeeds :
      (max_tasks : Option ℕ) (flush : Option (Action c.World (Unit {0}))) (s : Live c.World)
      → (run_benchmark c gather repr max_tasks flush s).0 ≡ return tt
      → (run_benchmark c gather repr max_tasks flush s).1.run.status ≡ succeeded
  unfolding run_benchmark conclude
  run_benchmark_succeeds max_tasks none s h = ground arith
  run_benchmark_succeeds max_tasks (some f) s h = ground arith

-- What `asyncio.gather(…, return_exceptions=True)` promises: it takes only steps of the tasks, and
-- it returns when each of them has ended.
pub record IsGather (c : Clients) (traced : Bool) (meta : Meta) (task_timeout : Option ℕ)
    (max_parallel : ℕ) (gather : Gather c.World) : Type 0 where
  pub steps :
      (w : c.World) (b : Batch) → Steps c traced meta task_timeout max_parallel b (gather w b).2
  pub ends : (w : c.World) (b : Batch) → (gather w b).0 ≡ return tt → AllDone (gather w b).2.slots

module _ (c : Clients) (gather : Gather c.World) (repr : Raised → String) (s : Live c.World) where
  abbrev listed : Outcome (List String) × c.World
  listed = c.list_tasks (c.monotonic s.world).1

  abbrev gathered : List String → Outcome (Unit {0}) × c.World × Batch
  gathered task_ids = gather listed.1 (begin (record s.run { results = [] }) task_ids)

  run_benchmark_gathers :
      (max_tasks : Option ℕ) (flush : Option (Action c.World (Unit {0}))) (task_ids : List String)
      → listed.0 ≡ return task_ids
      → (run_benchmark c gather repr max_tasks flush s).0 ≡ return tt
      → ((gathered (limit_tasks max_tasks task_ids)).0 ≡ return tt)
        × ((run_benchmark c gather repr max_tasks flush s).1.run.results
            ≡ book repr
                (gathered (limit_tasks max_tasks task_ids)).2.slots
                (gathered (limit_tasks max_tasks task_ids)).2.run.results)
  unfolding run_benchmark conclude
  run_benchmark_gathers max_tasks none task_ids l h = (ground arith, ground arith)
  run_benchmark_gathers max_tasks (some f) task_ids l h = (ground arith, ground arith)

  -- If `run_benchmark` returns, whether its spans are flushed at the end or not and however the
  -- flush ends, under a `gather` that keeps its promise: each task that was listed
  -- and not cut off by `max_tasks` has a result, exactly one if it was listed once, and no result
  -- bears another id.
  pub run_benchmark_accounts :
      (traced : Bool) (meta : Meta) (task_timeout : Option ℕ) (max_parallel : ℕ)
      → IsGather c traced meta task_timeout max_parallel gather
      → (max_tasks : Option ℕ) (flush : Option (Action c.World (Unit {0}))) (task_ids : List String)
        (t : String)
      → listed.0 ≡ return task_ids
      → (run_benchmark c gather repr max_tasks flush s).0 ≡ return tt
      → (results_of t (run_benchmark c gather repr max_tasks flush s).1.run.results
          ≤ times t (limit_tasks max_tasks task_ids))
        × (min 1 (times t (limit_tasks max_tasks task_ids))
            ≤ results_of t (run_benchmark c gather repr max_tasks flush s).1.run.results)
  run_benchmark_accounts traced meta task_timeout max_parallel law max_tasks flush task_ids t l h =
      let ids : List String = limit_tasks max_tasks task_ids in
      let done = run_benchmark_gathers max_tasks flush task_ids l h in
      rw done.1 (
        unfold conclude in
        (conclude_accounts c traced meta task_timeout max_parallel repr
          (record s.run { results = [] }) ids (gathered ids).2 0 0 t (law.steps _ _)
          (law.ends _ _ done.0)))
