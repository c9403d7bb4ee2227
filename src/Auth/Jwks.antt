-- ===== src/Auth/Jwks.antt =====
-- auth/jwks.py: the cache of the documents with the keys of the instances, by their urls.
pub mod Served
pub mod Rotation
use autobench.Prelude.{
  ℕ, ◌+◌, String, Bool, true, false, not, ◌&&◌, ◌||◌, Option, none, some, List, [], ◌∷◌, ltb,
  contains, ◌==◌, if◌then◌else◌,
}
use autobench.Prelude.Json.{
  Json, Items, Fields, null, bool, number, str, array, object, nil, cons, end, field, lookup,
}
use autobench.Prelude.Dict.{Dict, get, put}
use autobench.Prelude.Http.{Web, Request, Method, Response, Sent, answered, unsent, is_success}
use autobench.Auth.{Checked, accepted, rejected, unreachable, broken, ◌>>=◌, when_sent, json_get}

abbrev pub Keys : Type 0
Keys = Dict Fields

-- `{… : k}` for the key `k["kid"]`. A document's key that is no text is found by no `kid`, and a list
-- or a dict is no key of a dict.
keep_key : Fields → Option Json → Keys → Checked Keys
keep_key k none keys = accepted keys
keep_key k (some (str kid)) keys = accepted (put kid k keys)
keep_key k (some (array _)) keys = broken "unhashable type"
keep_key k (some (object _)) keys = broken "unhashable type"
keep_key k (some _) keys = accepted keys

has_text : String → Items → Bool
has_text text nil = false
has_text text (cons (str s) rest) = s == text || has_text text rest
has_text text (cons _ rest) = has_text text rest

-- `"kid" in k`, then `k["kid"]`, which raises on all but a dict.
keep_item : Json → Keys → Checked Keys
unfolding keep_key has_text
keep_item (object k) keys = keep_key k (lookup "kid" k) keys
keep_item (str s) keys =
    if contains s "kid" then broken "string indices must be integers" else accepted keys
keep_item (array items) keys =
    if has_text "kid" items then broken "list indices must be integers" else accepted keys
keep_item _ keys = broken "argument is not iterable"

keep_items : Items → Keys → Checked Keys
unfolding keep_item
keep_items nil keys = accepted keys
keep_items (cons k rest) keys = keep_item k keys >>= λ more. keep_items rest more

-- The texts that iterating over a dict gives.
keep_names : Fields → Keys → Checked Keys
keep_names end keys = accepted keys
keep_names (field name _ rest) keys =
    let others = keep_names rest keys in
    if contains name "kid" then broken "string indices must be integers" else others

-- `{k["kid"]: k for k in resp.json().get("keys", []) if "kid" in k}`
abbrev keys_of : Option Json → Checked Keys
keys_of none = accepted []
keys_of (some (array items)) = keep_items items []
keys_of (some (object fields)) = keep_names fields []
keys_of (some (str _)) = accepted []
keys_of (some _) = broken "object is not iterable"

unfoldable pub read_keys : Response → Checked Keys
unfolding keep_items keep_names
read_keys response =
    if is_success response.status_code
    then json_get "keys" response.json >>= keys_of
    else unreachable "HTTPStatusError"

-- The world, and the cache: the time and the keys of each document's last reading.
pub record Cached (W : Type 0) : Type 0 where
  pub world : W
  pub cache : Dict (ℕ × Keys)

abbrev pub jwks_request : String → Request
jwks_request url = record {
  method = Method.get;
  url = url;
  headers = [];
  params = [];
  form = [];
  body = none;
}

-- The cached keys, if they may be used: not by force, and only if younger than the `ttl`.
unfoldable pub usable : ℕ → Bool → ℕ → Option (ℕ × Keys) → Option Keys
usable ttl force now none = none
usable ttl force now (some (at, keys)) = if not force && ltb now (at + ttl) then some keys else none

module _ {W : Type 0} (web : Web W) (ttl : ℕ) where
  -- A document that is read is stored, with the time before the request.
  unfoldable pub store : String → ℕ → Cached W → Checked Keys → Checked Keys × Cached W
  store url now s (accepted keys) =
      (accepted keys, record s { cache = put url (now, keys) s.cache })
  store url now s (rejected text) = (rejected text, s)
  store url now s (unreachable text) = (unreachable text, s)
  store url now s (broken text) = (broken text, s)

  -- The cached keys, or else those of a document that is requested now.
  unfoldable pub cached_or_read : String → ℕ → Cached W → Option Keys → Checked Keys × Cached W
  cached_or_read url now s (some keys) = (accepted keys, s)
  cached_or_read url now s none =
      let (sent, world) = web.send (jwks_request url) s.world in
      store url now (record s { world = world }) (when_sent sent read_keys)

  -- `_get_keys`
  unfoldable pub get_keys : Bool → String → Cached W → Checked Keys × Cached W
  get_keys force url s =
      let (now, world) = web.monotonic s.world in
      cached_or_read url now (record s { world = world }) (usable ttl force now (get url s.cache))

  -- A document that is read for certain, where the first has no such key.
  unfoldable pub second_try :
      String → String → Cached W → Option Fields → Checked (Option Fields) × Cached W
  second_try url kid s (some key) = (accepted (some key), s)
  second_try url kid s none =
      let (again, after) = get_keys true url s in (again >>= λ ks. accepted (get kid ks), after)

  unfoldable pub retried :
      String → String → Checked Keys × Cached W → Checked (Option Fields) × Cached W
  unfolding second_try
  retried url kid (accepted keys, s) = second_try url kid s (get kid keys)
  retried url kid (rejected text, s) = (rejected text, s)
  retried url kid (unreachable text, s) = (unreachable text, s)
  retried url kid (broken text, s) = (broken text, s)

  unfoldable pub get_key : String → String → Cached W → Checked (Option Fields) × Cached W
  unfolding retried
  get_key url kid s = retried url kid (get_keys false url s)
