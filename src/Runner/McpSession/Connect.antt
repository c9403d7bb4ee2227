-- ===== src/Runner/McpSession/Connect.antt =====
-- runner/mcp_session.py, `__aenter__`, `_connect`, `__aexit__` and `_teardown`: the transport and the
-- SDK session on it. What each call of the SDK does is an argument.
pub mod Closed
use autobench.Prelude.{String, ◌⧺◌, Bool, true, false, List, [], ◌∷◌, ◌++◌}
use autobench.Prelude.Outcome.{
  Action, Outcome, Raised, return, raise, failure, interrupt, deadline, pure, throw, modify, ◌>>=◌,
  ◌>>◌,
}

-- The two things that are opened: the transport and the SDK's session.
pub data Stream : Type 0 where
  transport : Stream
  sdk_session : Stream

-- Whether `self._http_ctx` and `self._session` are there, and whose `__aexit__` has been awaited,
-- in order.
pub record Streams : Type 0 where
  pub http_ctx : Bool
  pub session : Bool
  pub exited : List Stream

abbrev pub closed : Streams
closed = record { http_ctx = false; session = false; exited = [] }

abbrev pub connected : Streams
connected = record { http_ctx = true; session = true; exited = [] }

-- The outcomes of the SDK's calls: the transport's construction and `__aenter__`, the session's
-- `__aenter__` and `initialize`, and the `__aexit__` of both under their own timeouts. `deadline` is
-- the timeout around them.
pub record Sdk : Type 0 where
  pub http_client : Outcome (Unit {0})
  pub http_enter : Outcome (Unit {0})
  pub session_enter : Outcome (Unit {0})
  pub initialize : Outcome (Unit {0})
  pub session_exit : Outcome (Unit {0})
  pub http_exit : Outcome (Unit {0})

abbrev await : Outcome (Unit {0}) → Action Streams (Unit {0})
await result s = (result, s)

-- `_connect`
unfoldable pub connect : Sdk → Action Streams (Unit {0})
connect sdk = do
  await sdk.http_client
  modify (λ s. record s { http_ctx = true })
  await sdk.http_enter
  modify (λ s. record s { session = true })
  await sdk.session_enter
  await sdk.initialize

-- `await ….__aexit__(…)`
abbrev exit_of : Stream → Outcome (Unit {0}) → Action Streams (Unit {0})
exit_of stream result s = (result, record s { exited = s.exited ++ stream ∷ [] })

-- An exit that raises an `Exception`, its timeout included, is logged.
close_with : (Streams → Streams) → Outcome (Unit {0}) × Streams → Outcome (Unit {0}) × Streams
close_with forget (raise (interrupt repr), s) = (raise (interrupt repr), s)
close_with forget (_, s) = (return tt, forget s)

close_session : Outcome (Unit {0}) → Bool → Action Streams (Unit {0})
unfolding close_with
close_session result false s = (return tt, s)
close_session result true s =
    close_with (λ t. record t { session = false }) (exit_of sdk_session result s)

close_http : Outcome (Unit {0}) → Bool → Action Streams (Unit {0})
unfolding close_with
close_http result false s = (return tt, s)
close_http result true s =
    close_with (λ t. record t { http_ctx = false }) (exit_of transport result s)

-- `_teardown`, and `__aexit__`
unfoldable pub teardown : Sdk → Action Streams (Unit {0})
unfolding close_session close_http
teardown sdk =
    (λ s. close_session sdk.session_exit s.session s)
    >> (λ s. close_http sdk.http_exit s.http_ctx s)

-- `connect_text` is `f"{connect_timeout:g}s"`.
module _ (url connect_text : String) (is_timeout_error : String → Bool) where
  abbrev pub connect_error : Raised
  connect_error = failure (
      "MCP connect to "
      ⧺ (url
          ⧺ (" timed out after " ⧺ (connect_text ⧺ " (tool pod still warming or unreachable?)"))))

  -- What is raised once the streams are torn down.
  connect_raised : Raised → Raised
  connect_raised deadline = connect_error
  connect_raised (failure text) = elim (is_timeout_error text) [
    | true ↦ connect_error
    | false ↦ failure text
  ]
  connect_raised (interrupt repr) = interrupt repr

  unwind : Sdk → Outcome (Unit {0}) → Action Streams (Unit {0})
  unfolding connect_raised
  unwind sdk (return _) = pure tt
  unwind sdk (raise e) = do teardown sdk; throw (connect_raised e)

  -- `__aenter__`
  unfoldable pub enter_session : Sdk → Action Streams (Unit {0})
  unfolding unwind
  enter_session sdk s = let (result, s') = connect sdk s in unwind sdk result s'
