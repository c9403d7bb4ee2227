-- ===== src/Runner/McpSession.antt =====
-- runner/mcp_session.py: one MCP session that the tasks of a run share. A lock makes its calls a
-- sequence, so a session's life is a list of calls, each with what the event loop let it meet.
pub mod Poison
pub mod Connect
use autobench.Prelude.{
  ℕ, suc, ◌-◌, String, ◌⧺◌, Bool, true, false, ◌||◌, Option, none, some, List, [], ◌∷◌, ltb,
  if◌then◌else◌,
}
use autobench.Prelude.Json.{Json, null, bool, str, array, object, nil, lookup, get_or, truth}
use autobench.Prelude.Outcome.{
  Action, Outcome, Raised, return, raise, failure, interrupt, pure, throw, try_except, ◌>>=◌, ◌>>◌,
}

-- A content item: its `text`, if it has one, the item as `str` shows it, and its type likewise.
pub record Content : Type 0 where
  pub text : Option String
  pub shown : String
  pub type_shown : String

pub record ToolResult : Type 0 where
  pub content : List Content
  pub is_error : Bool

-- What `asyncio.wait({call}, timeout=call_timeout)` comes back with: the finished call, the
-- cancellation of the waiting task, or neither in time.
pub data Wait : Type 0 where
  finished : Outcome ToolResult → Wait
  cancelled : Raised → Wait
  expired : Wait

-- The second wait, of `reap_grace`, after the call was cancelled.
pub data Reap : Type 0 where
  reaped unreaped : Reap
  cancelled : Raised → Reap

pub record Met : Type 0 where
  pub wait : Wait
  pub reap : Reap

-- The flag, and what is on the session's streams: how many calls are live there, and whether a
-- call was ever started beside a live one.
pub record Session : Type 0 where
  pub poisoned : Bool
  pub live : ℕ
  pub clashed : Bool

abbrev pub opened : Session
opened = record { poisoned = false; live = 0; clashed = false }

-- `asyncio.create_task(self._session.call_tool(…))`
abbrev pub start_call : Session → Session
start_call s = record s { live = suc s.live; clashed = s.clashed || ltb 0 s.live }

-- The call has come off the streams.
abbrev pub end_call : Session → Session
end_call s = record s { live = s.live - 1 }

abbrev pub poison : Session → Session
poison s = record s { poisoned = true }

-- Messages carry the session's url; `timeout_text` is `f"{call_timeout:g}s"`.
module _ (url timeout_text : String) where
  abbrev call_timeout : String → Raised
  call_timeout tool = failure (
      "MCP call '"
      ⧺ (tool ⧺ ("' to " ⧺ (url ⧺ (" exceeded " ⧺ (timeout_text ⧺ " (tool pod stalled?)"))))))

  abbrev pub poisoned_error : Raised
  poisoned_error = failure (
      "MCP session to "
      ⧺ (url ⧺ " was poisoned by an earlier stuck call (tool pod unreachable); failing fast"))

  reap_call : String → Reap → Action Session ToolResult
  reap_call tool reaped s = (raise (call_timeout tool), end_call s)
  reap_call tool unreaped s = (raise (call_timeout tool), poison s)
  reap_call tool (Reap.cancelled e) s = (raise e, s)

  await_call : String → Wait → Reap → Action Session ToolResult
  unfolding reap_call
  await_call tool (finished result) reap s = (result, end_call s)
  await_call tool (Wait.cancelled e) reap s = (raise e, poison s)
  await_call tool expired reap s = reap_call tool reap s

  unfoldable pub bounded_call_tool : String → Met → Action Session ToolResult
  unfolding await_call
  bounded_call_tool tool met s = await_call tool met.wait met.reap (start_call s)

  -- The part of `_call` inside the lock.
  unfoldable pub locked_call : String → Met → Action Session ToolResult
  unfolding bounded_call_tool
  locked_call tool met s =
      if s.poisoned then (raise poisoned_error, s) else bounded_call_tool tool met s

  -- The rest of `_call`; `loads` is `json.loads`.
  decode : (String → Outcome Json) → String → ToolResult → Outcome Json
  decode loads tool result = elim result.content [
    | [] ↦ raise (failure ("empty response from " ⧺ tool))
    | content ∷ _ ↦
        if result.is_error
        then raise (
            failure
              ("MCP tool error: " ⧺ (elim content.text [ none ↦ content.shown | some t ↦ t ])))
        else (elim content.text [
          | none ↦ raise (failure ("unexpected MCP content type: " ⧺ content.type_shown))
          | some t ↦ loads t
        ])
  ]

  unfoldable pub call : (String → Outcome Json) → String → Met → Action Session Json
  unfolding locked_call decode
  call loads tool met = do result ← locked_call tool met; λ s. (decode loads tool result, s)

  -- A life of the session: tool calls one after another, whatever each of them raises.
  pub life : (String → Outcome Json) → List (String × Met) → Session → Session
  life loads [] s = s
  life loads ((tool, met) ∷ calls) s = life loads calls (call loads tool met s).1

  -- `data.get("tasks", [])`; what is no dict has no `get`.
  pub list_tasks : (String → Outcome Json) → Met → Action Session Json
  list_tasks loads met = do
    data' ← call loads "list_tasks" met
    λ s. (
      elim data' [
        | object fields ↦ return (get_or "tasks" (array nil) fields)
        | _ ↦ raise (failure "no attribute 'get'")
      ],
      s,
    )

  -- session id, task text, context
  pub create_session : (String → Outcome Json) → Met → Action Session (Json × Json × Json)
  create_session loads met = do
    r ← call loads "create_session" met
    λ s. (
      elim r [
        | object fields ↦ elim (lookup "session_id" fields) [
          | none ↦ raise (failure "'session_id'")
          | some session_id ↦ return (
            session_id,
            get_or "task" (get_or "task_description" (str "") fields) fields,
            get_or "context" null fields,
          )
        ]
        | _ ↦ raise (failure "no item 'session_id'")
      ],
      s,
    )

  pub evaluate_session : (String → Outcome Json) → (String → Bool) → Met → Action Session Bool
  evaluate_session loads is_zero met = do
    r ← call loads "evaluate_session" met
    λ s. (
      return (elim r [
        | object fields ↦
            truth is_zero (get_or "success" (get_or "passed" (bool false) fields) fields)
        | other ↦ truth is_zero other
      ]),
      s,
    )

  -- A failure is logged and ignored, and so is what the server reports.
  pub delete_session : (String → Outcome Json) → Met → Action Session (Unit {0})
  delete_session loads met = try_except (do call loads "delete_session" met; pure tt) (λ _. pure tt)
