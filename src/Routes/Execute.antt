-- ===== src/Routes/Execute.antt =====
-- routes/runs.py, `_execute`: a run in the background, from its request to its export.
-- `asyncio.wait` over the task that runs the body is an argument: it hands back the body's outcome
-- if the body ended in time and nothing if it did not, and raises if the waiting itself is cancelled.
-- What the body does after it was left behind is outside of the model.
pub mod Terminal
use autobench.Prelude.{
  ℕ, min, String, ◌⧺◌, Bool, true, false, Option, none, some, List, length, is_set, if◌then◌else◌,
  eqb,
}
use autobench.Prelude.Text.{decimal}
use autobench.Prelude.Outcome.{
  Action, Outcome, return, raise, pure, gets, modify, try_except, try_finally, ◌>>=◌, ◌>>◌,
}
use autobench.Models.Run.{RunRequest, RunState, RunStatus}
use autobench.Runner.Benchmark.{Live, live_read}

-- `x or default`, for a number: 0 counts as absent.
abbrev pub or_number : Option ℕ → ℕ → ℕ
or_number none default = default
or_number (some n) default = if eqb n 0 then default else n

-- `_TASK_TIMEOUT`
abbrev pub default_task_timeout : ℕ
default_task_timeout = 300

unfoldable pub task_timeout : RunRequest → ℕ
task_timeout req = min (or_number req.task_timeout_seconds default_task_timeout) req.timeout_seconds

-- `_go`: the engine inside `async with mcp_client`.
abbrev pub go :
    {W : Type 0}
    → Action (Live W) (Unit {0})
    → Action (Live W) (Unit {0})
    → Action (Live W) (Unit {0})
    → Action (Live W) (Unit {0})
go enter exit benchmark = enter >> try_finally benchmark exit

-- `await asyncio.wait({inner}, timeout=req.timeout_seconds)`
abbrev pub Wait : Type 0 → Type 0
Wait W = Action (Live W) (Unit {0}) → Action (Live W) (Option (Outcome (Unit {0})))

abbrev pub is_terminal : RunStatus → Bool
is_terminal RunStatus.succeeded = true
is_terminal RunStatus.failed = true
is_terminal _ = false

abbrev pub fail_run : String → ℕ → RunState → RunState
fail_run error now run = record run {
  status = RunStatus.failed;
  error = some error;
  finished_at = some now;
}

module _ {W : Type 0} (time : W → ℕ × W) (fmt_g : ℕ → String) (req : RunRequest) where
  abbrev pub late_error : RunState → String
  late_error run =
      "run exceeded timeout of "
      ⧺ (fmt_g req.timeout_seconds
          ⧺ ("s ("
              ⧺ (decimal (length run.results)
                  ⧺ " task(s) completed before the deadline; partial results retained)")))

  unfoldable pub start : Action (Live W) (Unit {0})
  start = do
    modify (λ s. record s { run = record s.run { status = RunStatus.running } })
    now ← live_read time
    modify (λ s. record s { run = record s.run { started_at = some now } })

  -- `if inner not in done_set: … else: inner.result()`
  judge_wait : Option (Outcome (Unit {0})) → Action (Live W) (Unit {0})
  judge_wait (some result) = λ s. (result, s)
  judge_wait none = do
    error ← gets (λ s. late_error s.run)
    now ← live_read time
    modify (λ s. record s { run = fail_run error now s.run })

  -- `except Exception as exc`
  fail_with : String → Action (Live W) (Unit {0})
  fail_with exc = do now ← live_read time; modify (λ s. record s { run = fail_run exc now s.run })

  abbrev pub interrupted_error : RunState → String
  interrupted_error run =
      "run was interrupted before completing ("
      ⧺ (decimal (length run.results)
          ⧺ " task(s) recorded before it stopped; partial results retained)")

  abbrev pub has_error : RunState → Bool
  has_error run = is_set run.error

  abbrev pub interrupt_run : ℕ → RunState → RunState
  interrupt_run now run = record run {
    status = RunStatus.failed;
    finished_at = some now;
    error = if has_error run then run.error else some (interrupted_error run);
  }

  -- The first half of `finally`: a run that is not terminal is marked failed.
  backstop_if : Bool → Action (Live W) (Unit {0})
  backstop_if true = pure tt
  backstop_if false = do
    now ← live_read time
    modify (λ s. record s { run = interrupt_run now s.run })

  backstop : Action (Live W) (Unit {0})
  unfolding backstop_if
  backstop = do terminal ← gets (λ s. is_terminal s.run.status); backstop_if terminal

  -- The second half: what the export raises is dropped if it is an `Exception`.
  hand_over : Option (Action (Live W) (Unit {0})) → Action (Live W) (Unit {0})
  hand_over none = pure tt
  hand_over (some on_complete) = try_except on_complete (λ _. pure tt)

  -- The body of the `try` up to its `except`.
  guarded : Wait W → Action (Live W) (Unit {0}) → Action (Live W) (Unit {0})
  unfolding judge_wait fail_with
  guarded wait body = try_except (do result ← wait body; judge_wait result) fail_with

  unfoldable pub execute :
      Wait W
      → Action (Live W) (Unit {0})
      → Option (Action (Live W) (Unit {0}))
      → Action (Live W) (Unit {0})
  unfolding start guarded backstop hand_over
  execute wait body on_complete = do
    start
    try_finally (guarded wait body) (backstop >> hand_over on_complete)
