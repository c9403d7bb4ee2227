-- ===== src/Runner/Task/Result.antt =====
-- What `_run_task` hands back, whatever the clients do.
use autobench.Prelude.{◌&&◌, is_some, ℕ, String, Bool, false, ◌≡◌, refl, Option, none, some, arith}
use autobench.Prelude.Outcome.Rules.{
  OnReturn, NoFailure, Returns, Catches, returns_rules, catches_rules,
}
use autobench.Prelude.Outcome.{gets}
use autobench.Models.Run.{TaskResult}
use autobench.Runner.Clients.{Clients}
use autobench.Runner.Task.{
  Meta, Local, attempt, capture, cleanup, delete_if, run_task, set_meta, emit, read, set_text,
  set_number, SpanEvent,
}

-- A result names its task, and one that passed carries no error.
abbrev pub IsFor : String → TaskResult → Type 0
IsFor task_id r = (r.task_id ≡ task_id) × ((r.passed && is_some r.error) ≡ false)

IsFor-scored :
    (task_id : String) (session_id : Option String) (passed : Bool) (latency : ℕ)
    → IsFor task_id (record {
      task_id = task_id;
      session_id = session_id;
      passed = passed;
      latency_seconds = latency;
      error = none;
    })
IsFor-scored task_id session_id passed latency = (refl, ground arith)

pub IsFor-failed :
    (task_id : String) (session_id : Option String) (latency : ℕ) (error : Option String)
    → IsFor task_id (record {
      task_id = task_id;
      session_id = session_id;
      passed = false;
      latency_seconds = latency;
      error = error;
    })
IsFor-failed task_id session_id latency error = (refl, refl)

module _ {W : Type 0} where
  emit-Catches : (traced : Bool) (e : SpanEvent) → Catches {S = Local W} (emit traced e)
  emit-Catches traced e = record { at = λ s. tt }

  read-Catches : (clock : W → ℕ × W) → Catches (read clock)
  read-Catches clock = record { at = λ s. tt }

  session-Catches : Catches {S = Local W} (gets (λ s. s.session_id))
  session-Catches = record { at = λ s. tt }

  set_text-Catches :
      (traced : Bool) (key : String) (value : Option String)
      → Catches {S = Local W} (set_text traced key value)
  set_text-Catches traced key none = record { at = λ s. tt }
  set_text-Catches traced key (some v) = record { at = λ s. tt }

  set_number-Catches :
      (traced : Bool) (key : String) (value : Option ℕ)
      → Catches {S = Local W} (set_number traced key value)
  set_number-Catches traced key none = record { at = λ s. tt }
  set_number-Catches traced key (some v) = record { at = λ s. tt }

ruleset task_rules = (
  catches_rules, emit-Catches, read-Catches, session-Catches, set_text-Catches, set_number-Catches,
)

module _ (c : Clients) (traced : Bool) (meta : Meta) (task_id : String) where
  attempt-IsFor : (started : ℕ) → Returns (IsFor task_id) (attempt c traced meta task_id started)
  unfolding attempt
  attempt-IsFor started = search (returns_rules, IsFor-scored) depth 30

  capture-IsFor :
      (started : ℕ) (exc : String)
      → Returns (IsFor task_id) (capture c traced meta task_id started exc)
  unfolding capture
  capture-IsFor started exc = search (returns_rules, IsFor-failed) depth 30

  run_task-IsFor : Returns (IsFor task_id) (run_task c traced meta task_id)
  unfolding run_task
  run_task-IsFor = search (returns_rules, attempt-IsFor, capture-IsFor) depth 30

  set_meta-Catches : Catches (set_meta c traced meta task_id)
  unfolding set_meta
  set_meta-Catches = search task_rules depth 12

  capture-Catches :
      (started : ℕ) (exc : String) → Catches (capture c traced meta task_id started exc)
  unfolding capture
  capture-Catches started exc = search task_rules depth 12

  delete_if-Catches :
      (session_id : Option String) → Catches (delete_if c traced meta task_id session_id)
  unfolding delete_if
  delete_if-Catches none = search task_rules
  delete_if-Catches (some session_id) = search task_rules

  cleanup-Catches : Catches (cleanup c traced meta task_id)
  unfolding cleanup
  cleanup-Catches = search (task_rules, delete_if-Catches)

  run_task-Catches : Catches (run_task c traced meta task_id)
  unfolding run_task
  run_task-Catches =
      search (task_rules, set_meta-Catches, capture-Catches, cleanup-Catches) depth 12

  pub run_task_settles :
      (s : Local c.World)
      → OnReturn (IsFor task_id) (run_task c traced meta task_id s).0
        × NoFailure (run_task c traced meta task_id s).0
  run_task_settles s = (run_task-IsFor.at s, run_task-Catches.at s)
