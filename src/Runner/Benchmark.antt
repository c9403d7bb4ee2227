-- ===== src/Runner/Benchmark.antt =====
-- engine.py, `run_benchmark`, from the list of tasks to the finished run. `asyncio.gather` is an
-- argument: it drives the batch, and hands back the batch that it leaves behind.
pub mod Complete
use autobench.Prelude.{ℕ, ◌-◌, String, Bool, Option, none, some, List, []}
use autobench.Prelude.Outcome.{
  Action, Outcome, Raised, return, raise, pure, modify, try_except, try_finally, ◌>>=◌, ◌>>◌,
}
use autobench.Models.Run.{RunState}
use autobench.Runner.Clients.{Clients}
use autobench.Runner.Batch.{Slot, Batch, limit_tasks, begin, conclude}

-- The world, and the run that `run_benchmark` changes in place.
pub record Live (W : Type 0) : Type 0 where
  pub world : W
  pub run : RunState

abbrev pub live_call : {W A : Type 0} → Action W A → Action (Live W) A
live_call f s = let (result, world) = f s.world in (result, record s { world = world })

abbrev pub live_read : {W : Type 0} → (W → ℕ × W) → Action (Live W) ℕ
live_read clock s = let (now, world) = clock s.world in (return now, record s { world = world })

abbrev pub Gather : Type 0 → Type 0
Gather W = W → Batch → Outcome (Unit {0}) × W × Batch

-- Whatever `gather` raises, the run has what the tasks have recorded.
abbrev pub gather_all : {W : Type 0} → Gather W → List String → Action (Live W) (List Slot)
gather_all gather task_ids s =
    let (result, world, b) = gather s.world (begin s.run task_ids) in
    (
      elim result [ return _ ↦ return b.slots | raise e ↦ raise e ],
      record { world = world; run = b.run },
    )

module _ (c : Clients) (gather : Gather c.World) (repr : Raised → String) where
  finish : ℕ → List Slot → Action (Live c.World) (Unit {0})
  finish started slots = do
    wall ← live_read c.monotonic
    now ← live_read c.time
    modify (λ s. record s {
      run = conclude repr (wall - started) now (record { run = s.run; slots = slots });
    })

  -- The `try` body.
  run_tasks : Option ℕ → ℕ → Action (Live c.World) (Unit {0})
  unfolding finish
  run_tasks max_tasks started = do
    task_ids ← live_call c.list_tasks
    slots ← gather_all gather (limit_tasks max_tasks task_ids)
    finish started slots

  -- `finally`: an export failure must not fail the run.
  flush_spans : Option (Action c.World (Unit {0})) → Action (Live c.World) (Unit {0})
  flush_spans none = pure tt
  flush_spans (some flush) = try_except (live_call flush) (λ _. pure tt)

  unfoldable pub run_benchmark :
      Option ℕ → Option (Action c.World (Unit {0})) → Action (Live c.World) (Unit {0})
  unfolding run_tasks flush_spans
  run_benchmark max_tasks flush = do
    started ← live_read c.monotonic
    modify (λ s. record s { run = record s.run { results = [] } })
    try_finally (run_tasks max_tasks started) (flush_spans flush)
