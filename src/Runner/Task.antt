-- ===== src/Runner/Task.antt =====
-- engine.py, `_span`, `_set` and `_run_task`: one task, from its session to its result.
pub mod Result
pub mod Cleanup
use autobench.Prelude.{
  ℕ, ◌-◌, String, Bool, true, false, Option, none, some, List, [], ◌∷◌, ◌++◌, if◌then◌else◌,
}
use autobench.Prelude.Outcome.{
  Action, pure, gets, modify, try_except, try_finally, return, raise, ◌>>=◌, ◌>>◌,
}
use autobench.Models.Run.{TaskResult}
use autobench.Runner.Clients.{Clients}
use autobench.Runner.Prompt.{build_prompt}

pub data Attribute : Type 0 where
  text : String → Attribute
  number : ℕ → Attribute
  flag : Bool → Attribute

-- What is written to the task's `Agent.Session` span, in order. `child` opens a child span.
pub data SpanEvent : Type 0 where
  attribute : String → Attribute → SpanEvent
  child : String → SpanEvent
  status_ok : SpanEvent
  status_error : String → SpanEvent

-- The keys that `start_run` puts into `meta`.
pub record Meta : Type 0 where
  pub agent_name : Option String
  pub benchmark_name : Option String
  pub num_parallel_tasks : Option ℕ
  pub experiment_name : Option String

-- The variables of one `_run_task`, and the world that it shares with the other tasks.
pub record Local (W : Type 0) : Type 0 where
  pub world : W
  pub session_id : Option String
  pub spans : List SpanEvent

abbrev pub fresh : {W : Type 0} → W → Local W
fresh w = record { world = w; session_id = none; spans = [] }

-- A call of a client: it changes the world and not the variables.
abbrev pub call : {W A : Type 0} → Action W A → Action (Local W) A
call f s = let (result, world) = f s.world in (result, record s { world = world })

abbrev pub read : {W : Type 0} → (W → ℕ × W) → Action (Local W) ℕ
read clock s = let (now, world) = clock s.world in (return now, record s { world = world })

-- A span is written only when there is a tracer.
abbrev pub emit : {W : Type 0} → Bool → SpanEvent → Action (Local W) (Unit {0})
emit traced event s = (return tt, if traced then record s { spans = s.spans ++ event ∷ [] } else s)

-- `_set` leaves out a value that is None.
abbrev pub set_text : {W : Type 0} → Bool → String → Option String → Action (Local W) (Unit {0})
set_text traced key none s = (return tt, s)
set_text traced key (some value) s = emit traced (attribute key (text value)) s

abbrev pub set_number : {W : Type 0} → Bool → String → Option ℕ → Action (Local W) (Unit {0})
set_number traced key none s = (return tt, s)
set_number traced key (some value) s = emit traced (attribute key (number value)) s

module _ (c : Clients) (traced : Bool) (meta : Meta) (task_id : String) where
  set_meta : Action (Local c.World) (Unit {0})
  set_meta = do
    set_text traced "metadata.task_id" (some task_id)
    set_text traced "metadata.agent_name" meta.agent_name
    set_text traced "metadata.benchmark_name" meta.benchmark_name
    set_number traced "metadata.num_parallel_tasks" meta.num_parallel_tasks
    set_text traced "metadata.experiment_name" meta.experiment_name

  -- The `try` body from the open session on.
  converse :
      ℕ → String → String → Option (List (String × String)) → Action (Local c.World) TaskResult
  converse started session_id task context = do
    set_text traced "metadata.session_id" (some session_id)
    let prompt = build_prompt task context
    emit traced (child "Agent.Call")
    call (c.send_prompt prompt session_id)
    emit traced (child "Evaluator.Evaluate")
    passed ← call (c.evaluate_session session_id)
    emit traced (attribute "metadata.evaluation_result" (flag passed))
    emit traced status_ok
    now ← read c.monotonic
    pure (record {
      task_id = task_id;
      session_id = some session_id;
      passed = passed;
      latency_seconds = now - started;
      error = none;
    })

  -- The `try` body.
  attempt : ℕ → Action (Local c.World) TaskResult
  unfolding converse
  attempt started = do
    emit traced (child "MCP.CreateSession")
    (session_id, task, context) ← call (c.create_session task_id)
    modify (λ s. record s { session_id = some session_id })
    converse started session_id task context

  -- `except Exception as exc`
  capture : ℕ → String → Action (Local c.World) TaskResult
  capture started exc = do
    emit traced (status_error exc)
    now ← read c.monotonic
    session_id ← gets (λ s. s.session_id)
    pure (record {
      task_id = task_id;
      session_id = session_id;
      passed = false;
      latency_seconds = now - started;
      error = some exc;
    })

  -- `finally`: what `delete_session` raises is dropped if it is an `Exception`.
  delete_if : Option String → Action (Local c.World) (Unit {0})
  delete_if none = pure tt
  delete_if (some session_id) = try_except (call (c.delete_session session_id)) (λ _. pure tt)

  cleanup : Action (Local c.World) (Unit {0})
  unfolding delete_if
  cleanup = do session_id ← gets (λ s. s.session_id); delete_if session_id

  unfoldable pub run_task : Action (Local c.World) TaskResult
  unfolding set_meta attempt capture cleanup
  run_task = do
    started ← read c.monotonic
    set_meta
    try_finally (try_except (attempt started) (capture started)) cleanup
