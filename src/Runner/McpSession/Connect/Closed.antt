-- ===== src/Runner/McpSession/Connect/Closed.antt =====
-- mcp_session.py, `__aenter__` and `_teardown`: what is open after them, and which exits they have awaited.
use autobench.Prelude.{
  String, Bool, true, false, ◌≡◌, ◌⊎◌, inl, inr, refl, ap, ◌∙◌, List, [], ◌∷◌, ◌++◌, arith,
  if◌then◌else◌,
}
use autobench.Prelude.Outcome.{Outcome, Raised, return, raise, interrupt}
use autobench.Runner.McpSession.Connect.{
  Stream, transport, sdk_session, Streams, Sdk, closed, connected, connect, teardown, close_session,
  close_http, close_with, connect_raised, unwind, enter_session,
}

abbrev pub is_interrupt : Outcome (Unit {0}) → Bool
is_interrupt (raise (interrupt _)) = true
is_interrupt _ = false

-- The streams without the session, or without the transport, and its exit awaited if it was there.
abbrev without_session : Streams → Streams
without_session s = record s {
  session = false;
  exited = if s.session then s.exited ++ sdk_session ∷ [] else s.exited;
}

abbrev without_http : Streams → Streams
without_http s = record s {
  http_ctx = false;
  exited = if s.http_ctx then s.exited ++ transport ∷ [] else s.exited;
}

close_session_lem :
    (result : Outcome (Unit {0})) (s : Streams)
    → is_interrupt result ≡ false
    → close_session result s.session s ≡ (return tt, without_session s)
unfolding close_session close_with
close_session_lem result s h = ground arith

close_http_lem :
    (result : Outcome (Unit {0})) (s : Streams)
    → is_interrupt result ≡ false
    → close_http result s.http_ctx s ≡ (return tt, without_http s)
unfolding close_http close_with
close_http_lem result s h = ground arith

-- `_teardown` awaits the exit of whatever is there, forgets it, and raises nothing, if no
-- cancellation meets it.
teardown_closes :
    (sdk : Sdk) (s : Streams)
    → is_interrupt sdk.session_exit ≡ false
    → is_interrupt sdk.http_exit ≡ false
    → teardown sdk s ≡ (return tt, without_http (without_session s))
unfolding teardown
teardown_closes sdk s h k = ground (
  arith,
  close_session_lem sdk.session_exit s h,
  close_http_lem sdk.http_exit (without_session s) k,
)

-- The exits that a failed connect owes: none if there is no transport, that of the transport if it
-- could not be entered, and else that of the session before that of the transport.
abbrev pub owed : Sdk → List Stream
owed sdk = elim sdk.http_client [
  | raise _ ↦ []
  | return _ ↦ elim sdk.http_enter [
    | raise _ ↦ transport ∷ []
    | return _ ↦ sdk_session ∷ transport ∷ []
  ]
]

abbrev pub torn_down : Sdk → Streams
torn_down sdk = record closed { exited = owed sdk }

module _ (url connect_text : String) (is_timeout_error : String → Bool) where
  unwind_closes :
      (sdk : Sdk) (e : Raised) (s : Streams)
      → is_interrupt sdk.session_exit ≡ false
      → is_interrupt sdk.http_exit ≡ false
      → unwind url connect_text is_timeout_error sdk (raise e) s ≡ (
        raise (connect_raised url connect_text is_timeout_error e),
        without_http (without_session s),
      )
  unfolding unwind
  unwind_closes sdk e s h k = ground (arith, teardown_closes sdk s h k)

  settled :
      (sdk : Sdk) (r : Outcome (Unit {0})) (s : Streams)
      → is_interrupt sdk.session_exit ≡ false
      → is_interrupt sdk.http_exit ≡ false
      → (r ≡ return tt → s ≡ connected)
      → ((e : Raised) → r ≡ raise e → without_http (without_session s) ≡ torn_down sdk)
      → (unwind url connect_text is_timeout_error sdk r s ≡ (return tt, connected))
        ⊎ ((e : Raised) × (unwind url connect_text is_timeout_error sdk r s
              ≡ (raise e, torn_down sdk)))
  unfolding unwind
  settled sdk (return _) s h k whole failing = inl (rw (whole refl) refl)
  settled sdk (raise e) s h k whole failing =
      let raised : Raised = connect_raised url connect_text is_timeout_error e in
      inr (raised, unwind_closes sdk e s h k ∙ ap (λ t. (raise raised, t)) (failing e refl))

  connect_lem :
      (sdk : Sdk) → (connect sdk closed).0 ≡ return tt → (connect sdk closed).1 ≡ connected
  unfolding connect
  connect_lem sdk h = ground arith

  connect_owes :
      (sdk : Sdk) (e : Raised)
      → (connect sdk closed).0 ≡ raise e
      → without_http (without_session (connect sdk closed).1) ≡ torn_down sdk
  unfolding connect
  connect_owes sdk e h = ground arith

  -- However far the connect gets, if no cancellation meets the cleanup: `__aenter__` returns with
  -- the transport and the session there and the exit of neither awaited; or it raises with neither
  -- of them there, and has awaited the exit of each that was there, once, the session's before the
  -- transport's. Whether an exit that fails or times out has closed what it should is not known: the
  -- code only logs it.
  pub enter_session_closes :
      (sdk : Sdk)
      → is_interrupt sdk.session_exit ≡ false
      → is_interrupt sdk.http_exit ≡ false
      → (enter_session url connect_text is_timeout_error sdk closed ≡ (return tt, connected))
        ⊎ ((e : Raised) × (enter_session url connect_text is_timeout_error sdk closed
              ≡ (raise e, torn_down sdk)))
  unfolding enter_session
  enter_session_closes sdk h k =
      settled sdk (connect sdk closed).0 (connect sdk closed).1 h k (connect_lem sdk)
        (connect_owes sdk)
