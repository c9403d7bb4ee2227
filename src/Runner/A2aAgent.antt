-- ===== src/Runner/A2aAgent.antt =====
-- runner/a2a_agent.py: one agent turn under one deadline, with retries of transport failures.
pub mod Retry
use autobench.Prelude.{
  ℕ, zero, suc, ◌+◌, ◌-◌, max, String, ◌⧺◌, Bool, true, false, not, ◌&&◌, ◌||◌, Option, none, some,
  List, [], ◌∷◌, any, ltb, eqb, is_some, truthy, if◌then◌else◌,
}

-- What an attempt raises: its class as far as `_is_transport_error` looks, and its text.
pub record Failure : Type 0 where
  pub status_code : Option ℕ
  pub is_httpx_transport : Bool
  pub message : String

-- `stopped`: a BaseException that is no Exception.
pub data Reply : Type 0 where
  answered : String → Reply
  failed : Failure → Reply
  stopped : String → Reply

abbrev pub retry_status : List ℕ
retry_status = 502 ∷ 503 ∷ 504 ∷ []

unfoldable pub is_transport_error : Failure → Bool
is_transport_error f =
    elim f.status_code [ none ↦ false | some code ↦ any (λ s. eqb s code) retry_status ]
    || f.is_httpx_transport

pub data TaskState : Type 0 where
  submitted working completed failed rejected canceled : TaskState

pub data Part : Type 0 where
  text : String → Part
  other : Part

-- What the stream yields: a task's state with an artifact's parts, or a message of parts.
pub data Response : Type 0 where
  update : Option TaskState → List Part → Response
  message : List Part → Response

append_parts : String → List Part → String
append_parts result [] = result
append_parts result (text t ∷ parts) = append_parts (result ⧺ t) parts
append_parts result (other ∷ parts) = append_parts result parts

abbrev pub task_error : String → String → Failure
task_error state detail = record {
  status_code = none;
  is_httpx_transport = false;
  message = "A2A task ended in state '" ⧺ (state ⧺ ("': " ⧺ detail));
}

-- The test after the loop; `strip` is Python's.
conclude_stream : (String → String) → String → Option TaskState → Reply
conclude_stream strip result final =
    let detail = if truthy (strip result) then strip result else "<no message>" in
    elim final [
      | some TaskState.failed ↦ Reply.failed (task_error "failed" detail)
      | some rejected ↦ Reply.failed (task_error "rejected" detail)
      | some canceled ↦ Reply.failed (task_error "canceled" detail)
      | _ ↦ answered result
    ]

consume_from : (String → String) → String → Option TaskState → List Response → Reply
unfolding append_parts conclude_stream
consume_from strip result final [] = conclude_stream strip result final
consume_from strip result final (update state parts ∷ responses) =
    consume_from strip (append_parts result parts) (elim state [ none ↦ final | some s ↦ some s ])
      responses
consume_from strip result final (message parts ∷ responses) =
    consume_from strip (append_parts result parts) final responses

-- `_consume`, over the responses of a stream that ends.
unfoldable pub consume : (String → String) → List Response → Reply
unfolding consume_from
consume strip responses = consume_from strip "" none responses

-- `_bounded_consume`: the stream's end, if it comes within the attempt's share of the deadline.
-- `share_text` is the share as `:g` shows it.
unfoldable pub bounded_consume : String → String → Option Reply → Reply
bounded_consume base_url share_text (some reply) = reply
bounded_consume base_url share_text none = Reply.failed (record {
  status_code = none;
  is_httpx_transport = false;
  message =
      "A2A agent call to "
      ⧺ (base_url
          ⧺ (" exceeded "
              ⧺ (share_text ⧺ "s (agent turn stalled — is a downstream tool unreachable?)")));
})

-- The client's settings. `_RETRY_MIN_BUDGET` is `min_budget`, and `second` is one second, the
-- least share that an attempt is given.
pub record Client : Type 0 where
  pub timeout : ℕ
  pub retry_attempts : ℕ
  pub min_budget : ℕ
  pub second : ℕ

-- `self._retry_attempts = max(1, retry_attempts)`
abbrev pub client : ℕ → ℕ → ℕ → ℕ → Client
client timeout retry_attempts min_budget second = record {
  timeout = timeout;
  retry_attempts = max 1 retry_attempts;
  min_budget = min_budget;
  second = second;
}

pub record Attempt : Type 0 where
  pub number : ℕ
  pub began : ℕ
  pub share : ℕ
  pub reply : Reply

-- `attempt number share now` is the reply of `_attempt` and the clock after it; `sleep now` is the
-- clock after the backoff, and the `repr` of the CancelledError if the turn is cancelled in it.
module _ (c : Client) (attempt : ℕ → ℕ → ℕ → Reply × ℕ) (sleep : ℕ → Option String × ℕ) where
  -- `except Exception as exc`: raised on, unless it is a transport failure with attempts left.
  judge : Attempt → (Failure → Reply × List Attempt) → Reply → Reply × List Attempt
  judge made retry (failed exc) =
      if not (is_transport_error exc) || eqb made.number c.retry_attempts
      then (failed exc, made ∷ [])
      else (let rest = retry exc in (rest.0, made ∷ rest.1))
  judge made retry reply = (reply, made ∷ [])

  -- A retry is refused with less than `min_budget` of the deadline left.
  gate : Option Failure → ℕ → Reply × List Attempt → Reply × List Attempt
  gate none remaining go_on = go_on
  gate (some last_exc) remaining go_on =
      if ltb remaining c.min_budget then (failed last_exc, []) else go_on

  -- `await asyncio.sleep(self._retry_backoff)`, and the next attempt.
  after_sleep : Option String × ℕ → (ℕ → Reply × List Attempt) → Reply × List Attempt
  after_sleep (none, now) go_on = go_on now
  after_sleep (some repr, now) go_on = (stopped repr, [])

  -- The `for` loop, `left` numbers from its end, with the attempts that it makes.
  turn : ℕ → ℕ → ℕ → Option Failure → ℕ → Reply × List Attempt
  unfolding judge gate after_sleep
  turn zero number deadline none now = (stopped "raise None", [])
  turn zero number deadline (some last_exc) now = (failed last_exc, [])
  turn (suc left) number deadline last_exc now =
      let share = max (deadline - now) c.second in
      let tried = attempt number share now in
      gate last_exc (deadline - now) (
        judge (record { number = number; began = now; share = share; reply = tried.0 })
          (λ exc. after_sleep (sleep tried.1) (turn left (number + 1) deadline (some exc))) tried.0)

  unfoldable pub send_prompt : ℕ → Reply × List Attempt
  unfolding turn
  send_prompt now = turn c.retry_attempts 1 (now + c.timeout) none now
