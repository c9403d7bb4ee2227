-- ===== src/Runner/Batch.antt =====
-- engine.py, `run_benchmark`: a batch of tasks under a semaphore, gathered into the run's results.
-- The tasks interleave at their awaits. A batch is the run and one slot for each task, and `Step`
-- is what the event loop may do next; what a task meets while others run is some world `w`. A task
-- that hangs is one that takes no further step: no step is ever due.
pub mod One
pub mod Accounting
pub mod Bounds
pub mod Summary
pub mod Booking
use autobench.Prelude.{
  ℕ, zero, suc, ◌+◌, ◌-◌, ◌<◌, max, String, ◌⧺◌, Bool, true, false, not, ◌&&◌, ◌≡◌, Option, none,
  some, List, [], ◌∷◌, ◌++◌, map, length, take, any, count_if, is_some, ltb, ◌==◌, if◌then◌else◌,
}
use autobench.Prelude.Outcome.{
  Action, Outcome, Raised, return, raise, failure, interrupt, deadline, try_except, try_finally,
  pure, ◌>>=◌, ◌>>◌,
}
use autobench.Models.Run.{TaskResult, RunSummary, RunState, RunStatus, succeeded}
use autobench.Runner.Clients.{Clients}
use autobench.Runner.Task.{Meta, Local, fresh, run_task}

-- Where one `_one` stands: before the semaphore, inside it, after it with a result to append,
-- through, or ended by an exception, which `gather` keeps as its outcome.
pub data Phase : Type 0 where
  waiting running : Phase
  recording : TaskResult → Phase
  finished : Phase
  aborted : Raised → Phase

pub record Slot : Type 0 where
  pub task_id : String
  pub phase : Phase

pub record Batch : Type 0 where
  pub run : RunState
  pub slots : List Slot

abbrev pub is_running : Phase → Bool
is_running running = true
is_running _ = false

abbrev pub is_done : Phase → Bool
is_done finished = true
is_done (aborted _) = true
is_done _ = false

abbrev pub slot : String → Phase → Slot
slot task_id phase = record { task_id = task_id; phase = phase }

-- `_publish_summary`, at a reading `wall` of the seconds since the start.
unfoldable pub summarize : ℕ → List TaskResult → RunSummary
summarize wall results =
    let total = length results in
    let evaluated_pass = count_if (λ r. r.passed) results in
    record {
      total = total;
      succeeded = count_if (λ r. not (is_some r.error)) results;
      evaluated_pass = evaluated_pass;
      pass_rate =
          if ltb 0 total
          then record { part = evaluated_pass; whole = total }
          else record { part = 0; whole = 1 };
      wall_seconds = wall;
    }

abbrev pub publish : ℕ → RunState → RunState
publish wall run = record run { summary = some (summarize wall run.results) }

-- `results.append(result)` and `_publish_summary()`, under the append lock.
abbrev pub append_result : ℕ → TaskResult → RunState → RunState
append_result wall result run = publish wall (record run { results = run.results ++ result ∷ [] })

-- `task_ids[:max_tasks]`, if `max_tasks` is given and positive.
unfoldable pub limit_tasks : Option ℕ → List String → List String
limit_tasks none task_ids = task_ids
limit_tasks (some n) task_ids = if ltb 0 n then take n task_ids else task_ids

module _ (c : Clients) (traced : Bool) (meta : Meta) (task_timeout : Option ℕ) where
  timed_out : String → ℕ → TaskResult
  timed_out task_id limit = record {
    task_id = task_id;
    session_id = none;
    passed = false;
    latency_seconds = limit;
    error = some ("task exceeded per-task timeout of " ⧺ (c.fmt_g limit ⧺ "s"));
  }

  -- `asyncio.timeout` turns the cancellation that it delivered into a TimeoutError, which `_one`
  -- records. Without a positive timeout nothing is bounded.
  bound : String → Outcome TaskResult → Outcome TaskResult
  unfolding timed_out
  bound task_id (raise deadline) = elim task_timeout [
    | none ↦ raise deadline
    | some limit ↦ if ltb 0 limit then return (timed_out task_id limit) else raise deadline
  ]
  bound task_id result = result

  -- The part of `_one` inside the semaphore.
  unfoldable pub one : String → Action c.World TaskResult
  unfolding bound
  one task_id w =
      let (result, s) = run_task c traced meta task_id (fresh w) in (bound task_id result, s.world)

module _ (c : Clients) (traced : Bool) (meta : Meta) (task_timeout : Option ℕ)
    (max_parallel : ℕ) where
  pub data Step (b b' : Batch) : Type 0 where
    -- `async with sem`, of `max(1, max_parallel)` places
    enter :
        (xs ys : List Slot) (task_id : String)
        → b.slots ≡ xs ++ slot task_id waiting ∷ ys
        → count_if (λ s. is_running s.phase) b.slots < max 1 max_parallel
        → b' ≡ record b { slots = xs ++ slot task_id running ∷ ys }
        → Step b b'
    leave :
        (xs ys : List Slot) (task_id : String) (w : c.World) (r : TaskResult)
        → b.slots ≡ xs ++ slot task_id running ∷ ys
        → (one c traced meta task_timeout task_id w).0 ≡ return r
        → b' ≡ record b { slots = xs ++ slot task_id (recording r) ∷ ys }
        → Step b b'
    -- `async with append_lock`
    append :
        (xs ys : List Slot) (task_id : String) (r : TaskResult) (wall : ℕ)
        → b.slots ≡ xs ++ slot task_id (recording r) ∷ ys
        → b' ≡ record { run = append_result wall r b.run; slots = xs ++ slot task_id finished ∷ ys }
        → Step b b'
    -- An exception leaves `_one` at any of its awaits, before it has appended a result.
    abort :
        (xs ys : List Slot) (task_id : String) (phase : Phase) (e : Raised)
        → b.slots ≡ xs ++ slot task_id phase ∷ ys
        → is_done phase ≡ false
        → b' ≡ record b { slots = xs ++ slot task_id (aborted e) ∷ ys }
        → Step b b'

  pub data Steps (b : Batch) : Batch → Type 0 where
    here : Steps b b
    next : {b' b'' : Batch} → Steps b b' → Step b' b'' → Steps b b''

-- `run.results = []`, and a coroutine for each task.
abbrev pub begin : RunState → List String → Batch
begin run task_ids = record {
  run = record run { results = [] };
  slots = map (λ t. slot t waiting) task_ids;
}

abbrev pub aborted_result : (Raised → String) → String → Raised → TaskResult
aborted_result repr task_id e = record {
  task_id = task_id;
  session_id = none;
  passed = false;
  latency_seconds = 0;
  error = some ("task aborted before recording a result: " ⧺ repr e);
}

-- The body of the loop over `zip(task_ids, outcomes)`: a task that was aborted before it recorded
-- a result is booked as errored, unless a result bears its id.
unfoldable pub book_one : (Raised → String) → String → Phase → List TaskResult → List TaskResult
book_one repr task_id (aborted e) results =
    if any (λ r. r.task_id == task_id) results
    then results
    else results ++ aborted_result repr task_id e ∷ []
book_one repr task_id _ results = results

unfoldable pub book : (Raised → String) → List Slot → List TaskResult → List TaskResult
book repr [] results = results
book repr (s ∷ slots) results = book repr slots (book_one repr s.task_id s.phase results)

-- What follows `gather`: the bookings, the last summary and the run's success.
unfoldable pub conclude : (Raised → String) → ℕ → ℕ → Batch → RunState
conclude repr wall now b =
    record (publish wall (record b.run { results = book repr b.slots b.run.results })) {
      status = RunStatus.succeeded;
      finished_at = some now;
    }
