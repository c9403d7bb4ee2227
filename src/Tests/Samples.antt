-- ===== src/Tests/Samples.antt =====
-- Sample clients, run, benchmark options and registry.
use autobench.Prelude.{ℕ, suc, true, none, some, [], ◌∷◌}
use autobench.Prelude.Text.{decimal}
use autobench.Prelude.Outcome.{return, raise, interrupt}
use autobench.Models.Run.{RunRequest, RunState}
use autobench.Runner.Clients.{Clients}
use autobench.Runner.Task.{Meta}
use autobench.Runner.Registry.{new_run}

-- Every call succeeds; the world is a clock.
abbrev pub clients : Clients
clients = record {
  World = ℕ;
  monotonic = λ w. (w, suc w);
  time = λ w. (w, suc w);
  fmt_g = decimal;
  list_tasks = λ w. (return ("a" ∷ "b" ∷ []), w);
  create_session = λ task_id w. (return (task_id, "2 + 2?", none), w);
  send_prompt = λ _ _ w. (return tt, w);
  evaluate_session = λ _ w. (return true, w);
  delete_session = λ _ w. (return tt, w);
}

-- The agent call of this one is cancelled from elsewhere.
abbrev pub cancelled_clients : Clients
cancelled_clients = record clients {
  send_prompt = λ _ _ w. (raise (interrupt "CancelledError()"), w);
}

abbrev pub meta : Meta
meta = record {
  agent_name = some "tool_calling";
  benchmark_name = some "gsm8k";
  num_parallel_tasks = some 2;
  experiment_name = none;
}

abbrev pub request : RunRequest
request = record {
  agent = "tool_calling";
  namespace = "team1";
  experiment = "default";
  max_tasks = 2;
  max_parallel_sessions = 2;
  timeout_seconds = 1800;
  task_timeout_seconds = none;
}

abbrev pub run : RunState
run = new_run "20261001120000-0a1b2c3d" "gsm8k" request
