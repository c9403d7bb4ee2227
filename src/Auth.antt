-- ===== src/Auth.antt =====
-- auth/, deps.py and context.py: how a caller is admitted to an instance, and how the Service logs in.
-- PyJWT, the servers and the clock are arguments.
pub mod Discovery
pub mod Jwks
pub mod CallerJwt
pub mod Login
pub mod Access
use autobench.Prelude.{ℕ, String, Option, some, none, Bool, true, false, ◌==◌}
use autobench.Prelude.Json.{Json, Fields, null, bool, number, str, array, object, lookup, truth}
use autobench.Prelude.Dict.{Dict}
use autobench.Prelude.Http.{Sent, answered, unsent, Response}

-- A call gives a value, raises the exception of its own module with a text, raises an `httpx.HTTPError`,
-- or raises another exception.
pub data Checked (A : Type 0) : Type 0 where
  accepted : A → Checked A
  rejected : String → Checked A
  unreachable : String → Checked A
  broken : String → Checked A

module _ {A B : Type 0} where
  infixl 5 ◌>>=◌
  abbrev pub ◌>>=◌ : Checked A → (A → Checked B) → Checked B
  accepted a >>= f = f a
  rejected text >>= f = rejected text
  unreachable text >>= f = unreachable text
  broken text >>= f = broken text

-- An exception of another module, where this one does not expect it.
abbrev pub foreign : {A : Type 0} → Checked A → Checked A
foreign (accepted a) = accepted a
foreign (rejected text) = broken text
foreign (unreachable text) = unreachable text
foreign (broken text) = broken text

abbrev pub when_sent : {A : Type 0} → Sent → (Response → Checked A) → Checked A
when_sent (answered response) read = read response
when_sent (unsent text) read = unreachable text

-- `resp.json().get(key)`: what is not JSON, and JSON that is no object, raises.
unfoldable pub json_get : String → Option Json → Checked (Option Json)
json_get key (some (object fields)) = accepted (lookup key fields)
json_get key (some _) = broken "the body has no attribute 'get'"
json_get key none = broken "the body is not JSON"

-- A JSON value that must be a text to be what the text stands for.
abbrev pub is_text : String → Option Json → Bool
is_text s (some (str t)) = t == s
is_text s _ = false
