-- ===== src/Runner/Batch/One.antt =====
-- The outcome of `_one`: what `_run_task` settles, with the per-task deadline turned into a result.
use autobench.Prelude.{ℕ, String, Bool, ◌≡◌, Option, none, some, arith}
use autobench.Prelude.Outcome.{Outcome, return, raise, failure, interrupt, deadline}
use autobench.Prelude.Outcome.Rules.{OnReturn}
use autobench.Models.Run.{TaskResult}
use autobench.Runner.Clients.{Clients}
use autobench.Runner.Task.{Meta, fresh, run_task}
use autobench.Runner.Task.Result.{IsFor, run_task_settles}
use autobench.Runner.Batch.{bound, one}
use mathlib.Core.Path.{subst}

module _ (c : Clients) (traced : Bool) (meta : Meta) (task_timeout : Option ℕ) where
  bound-IsFor :
      (task_id : String) (o : Outcome TaskResult)
      → OnReturn (IsFor task_id) o
      → OnReturn (IsFor task_id) (bound c traced meta task_timeout task_id o)
  unfolding bound
  bound-IsFor task_id (return r) h = h
  bound-IsFor task_id (raise (failure text)) h = tt
  bound-IsFor task_id (raise (interrupt repr)) h = tt
  bound-IsFor task_id (raise deadline) h = go task_timeout
    where
      go :
          (limit : Option ℕ)
          → OnReturn (IsFor task_id) (bound c traced meta limit task_id (raise deadline))
      go none = tt
      go (some n) = ground arith

  pub one-IsFor :
      (task_id : String) (w : c.World) (r : TaskResult)
      → (one c traced meta task_timeout task_id w).0 ≡ return r
      → IsFor task_id r
  unfolding one
  one-IsFor task_id w r e = subst (OnReturn (IsFor task_id)) e (
      bound-IsFor task_id (run_task c traced meta task_id (fresh w)).0
        (run_task_settles c traced meta task_id (fresh w)).0)
