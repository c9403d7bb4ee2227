-- ===== src/Tests/Sessions.antt =====
-- Tasks, the shared session, agent turns, background runs and the registry.
use autobench.Runner.McpSession.Connect.{Sdk, enter_session, closed, connected}
use autobench.Runner.McpSession.Connect.Closed.{torn_down, enter_session_closes}
use autobench.Prelude.{
  ◌⊎◌, ℕ, suc, ◌+◌, ◌≤◌, String, Bool, true, false, ltb, ◌≡◌, refl, Option, none, some, List, [],
  ◌∷◌, length, arith, All, eqb, eq_iff, if◌then◌else◌,
}
use autobench.Prelude.Json.{Json, null}
use autobench.Prelude.Outcome.{Action, Outcome, Raised, return, raise, failure}
use autobench.Runner.Task.{Local, fresh, run_task}
use autobench.Runner.Task.Cleanup.{Watched, watched, IsClosed, run_task-IsClosed}
use autobench.Runner.McpSession.{
  Met, finished, expired, Wait, Reap, reaped, unreaped, ToolResult, opened, life,
}
use autobench.Runner.McpSession.Poison.{life_never_clashes, reap_cancelled_clashes}
use autobench.Runner.A2aAgent.{Failure, Reply, answered, failed, Client, client, send_prompt}
use autobench.Runner.A2aAgent.Retry.{
  Settles, IsWithin, retries, send_prompt-Settles, send_prompt-IsWithin,
}
use autobench.Runner.Benchmark.{Live}
use autobench.Routes.Execute.{Wait as RunWait, is_terminal, execute, start}
use autobench.Routes.Execute.Terminal.{execute_exports_terminal, execute_keeps_results}
use autobench.Runner.Registry.{Runs, new_run, create, get, list_runs}
use autobench.Runner.Registry.Tenants.{created, Change-unseen}
use autobench.Prelude.Dict.{get as get_key}
use autobench.Tests.Samples.{cancelled_clients, meta, request, run}

abbrev unwatched : Local (Watched ℕ)
unwatched = fresh (record { inner = 0; opened = []; deleted = [] })

run_task-IsClosed_example :
    IsClosed (run_task (watched cancelled_clients) true meta "a" unwatched).1
run_task-IsClosed_example = run_task-IsClosed cancelled_clients true meta "a" unwatched refl refl

abbrev loads : String → Outcome Json
loads _ = return null

abbrev answer : Outcome ToolResult
answer = return (record {
  content = record { text = some "null"; shown = "null"; type_shown = "TextContent" } ∷ [];
  is_error = false;
})

-- A call that returns, one that its task's deadline cancels, and one after it.
abbrev calls : List (String × Met)
calls =
    ("list_tasks", record { wait = finished answer; reap = reaped })
    ∷ ("create_session", record { wait = Wait.cancelled Raised.deadline; reap = reaped })
    ∷ ("evaluate_session", record { wait = expired; reap = unreaped })
    ∷ []

life_never_clashes_example : (life "http://tool:8000/mcp" "120s" loads calls opened).clashed ≡ false
life_never_clashes_example =
    life_never_clashes "http://tool:8000/mcp" "120s" loads calls
      ((λ e h. cc), ((λ e h. cc), ((λ e h. cc), tt)))

reap_cancelled_clashes_example :
    (life "http://tool:8000/mcp" "120s" loads
      (("create_session", record { wait = expired; reap = Reap.cancelled Raised.deadline })
        ∷ ("delete_session", record { wait = finished answer; reap = reaped })
        ∷ [])
      opened).clashed
    ≡ true
reap_cancelled_clashes_example =
    reap_cancelled_clashes "http://tool:8000/mcp" "120s" loads "create_session" "delete_session"
      Raised.deadline (record { wait = finished answer; reap = reaped })

-- The gateway answers 503 to the first attempt.
abbrev busy : Failure
busy = record { status_code = some 503; is_httpx_transport = false; message = "HTTP 503" }

abbrev attempt : ℕ → ℕ → ℕ → Reply × ℕ
attempt number share now = (if eqb number 1 then failed busy else answered "4", now + 10)

abbrev agent : Client
agent = client 300 3 5 1

-- A sleep that the first cancellation after time 400 ends.
abbrev backoff : ℕ → Option String × ℕ
backoff now = if ltb 400 now then (some "CancelledError()", now) else (none, suc now)

send_prompt-Settles_example :
    (length (send_prompt agent attempt backoff 0).1 ≤ 3)
    × Settles attempt backoff
        (send_prompt agent attempt backoff 0).1
        (send_prompt agent attempt backoff 0).0
send_prompt-Settles_example = send_prompt-Settles agent attempt backoff 0 (omega arith)

send_prompt-IsWithin_example : All (IsWithin 300) (retries (send_prompt agent attempt backoff 0).1)
send_prompt-IsWithin_example =
    send_prompt-IsWithin agent attempt backoff 0 (omega arith) (omega arith)

abbrev time : ℕ → ℕ × ℕ
time w = (w, suc w)

abbrev fmt_g : ℕ → String
fmt_g _ = "1800"

abbrev in_time : RunWait ℕ
in_time body s = let (result, s') = body s in (return (some result), s')

abbrev body : Action (Live ℕ) (Unit {0})
body s = (raise (failure "MCP connect to http://tool:8000/mcp failed"), s)

abbrev live : Live ℕ
live = record { world = 0; run = run }

execute_exports_terminal_example :
    (t : Live ℕ) × (is_terminal t.run.status ≡ true)
    × ((execute time fmt_g request in_time body (some body) live).1 ≡ (body t).1)
execute_exports_terminal_example =
    execute_exports_terminal time fmt_g request in_time body body live

execute_keeps_results_example :
    (is_terminal (execute time fmt_g request in_time body none live).1.run.status ≡ true)
    × ((execute time fmt_g request in_time body none live).1.run.results
        ≡ (in_time body (start time fmt_g request live).1).1.run.results)
execute_keeps_results_example = execute_keeps_results time fmt_g request in_time body live

abbrev one_run : Runs
one_run =
    ("run1", record { state = new_run "run1" "gsm8k" request; iss = "https://idp/a"; task = none })
    ∷ []

apart : Path String "https://idp/a" "https://idp/b" → ⊥
apart h =
    let no : Path Bool false true = (eq_iff "https://idp/a" "https://idp/b").1 h in absurd (cc no)

Change-unseen_example :
    (get "run1" "https://idp/a" (create "run2" "gsm8k" request "https://idp/b" one_run).1
      ≡ get "run1" "https://idp/a" one_run)
    × (list_runs "gsm8k" "https://idp/a" (create "run2" "gsm8k" request "https://idp/b" one_run).1
        ≡ list_runs "gsm8k" "https://idp/a" one_run)
unfolding get_key
Change-unseen_example =
    Change-unseen "https://idp/b" "https://idp/a" one_run
      (create "run2" "gsm8k" request "https://idp/b" one_run).1 "run1" "gsm8k" apart
      (created "run2" "gsm8k" request refl)

-- The pod answers the connect, but `initialize` runs into the timeout.
abbrev stalled : Sdk
stalled = record {
  http_client = return tt;
  http_enter = return tt;
  session_enter = return tt;
  initialize = raise Raised.deadline;
  session_exit = return tt;
  http_exit = raise (failure "already closed");
}

enter_session_closes_example :
    (enter_session "http://tool:8000/mcp" "30s" (λ _. false) stalled closed
      ≡ (return tt, connected))
    ⊎ ((e : Raised) × (enter_session "http://tool:8000/mcp" "30s" (λ _. false) stalled closed
          ≡ (raise e, torn_down stalled)))
enter_session_closes_example =
    enter_session_closes "http://tool:8000/mcp" "30s" (λ _. false) stalled refl refl
