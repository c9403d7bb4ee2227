-- ===== src/Runner/Clients.antt =====
-- What the engine is handed: the MCP and A2A clients, the clock and the formatting of numbers.
-- The engine never imports the clients; whatever they do is a change of `World` and an outcome.
use autobench.Prelude.{ℕ, String, Bool, Option, List}
use autobench.Prelude.Outcome.{Action}

pub record Clients : Type 1 where
  pub World : Type 0
  -- `time.monotonic()` and `time.time()`
  pub monotonic : World → ℕ × World
  pub time : World → ℕ × World
  -- `f"{x:g}"`
  pub fmt_g : ℕ → String
  pub list_tasks : Action World (List String)
  -- session id, task text, context
  pub create_session : String → Action World (String × String × Option (List (String × String)))
  pub send_prompt : String → String → Action World (Unit {0})
  pub evaluate_session : String → Action World Bool
  pub delete_session : String → Action World (Unit {0})
