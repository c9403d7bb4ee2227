-- ===== src/PublicErrors.antt =====
-- public_errors.py: the form in which an error may be written to the public bucket. The regular
-- expressions and the hash that make a message's shape are an argument.
pub mod Closed
pub mod Scrub
use Prim.Native.Char.{Char, code}
use autobench.Prelude.{
  ℕ, String, ◌⧺◌, Bool, true, false, not, ◌&&◌, ◌||◌, Option, none, some, List, [], ◌∷◌, any, map,
  contains, eqb, leb, if◌then◌else◌, ◌==◌, is_some, truthy,
}
use mathlib.Core.Option
use autobench.Prelude.Text.{is_space}
use autobench.Prelude.Dict.{Dict, get, put}
use autobench.Prelude.Json.{
  Json, Items, Fields, null, str, array, object, nil, cons, lookup, set_field, truth,
}

-- `not message.strip()`
unfoldable pub is_blank : String → Bool
unfolding is_space
is_blank String.[] = true
is_blank (String.◌∷◌ c rest) = is_space (code c) && is_blank rest

-- `_CAUSES`: the first row with a pattern that the message has is its category.
unfoldable pub causes : List (String × List String)
causes =
    ("budget_exceeded", "Budget has been exceeded" ∷ "ExceededBudget" ∷ [])
    ∷ ("model_not_granted", "team not allowed to access model" ∷ [])
    ∷ (
      "model_auth_failed",
      "is not accessible: litellm.AuthenticationError" ∷ "AuthenticationError" ∷ [],
    )
    ∷ ("rate_limited", "RateLimitError" ∷ "HTTP 429" ∷ "Too Many Requests" ∷ [])
    ∷ (
      "model_probe_failed",
      "/v1/models" ∷ "is unreachable" ∷ "did not respond after" ∷ "is not accessible: TimeoutError"
          ∷ [],
    )
    ∷ ("agent_card_unreachable", "Failed to fetch agent card" ∷ [])
    ∷ ("mcp_session_poisoned", "was poisoned by an earlier stuck call" ∷ [])
    ∷ ("mcp_connect_timeout", "MCP connect to" ∷ [])
    ∷ ("mcp_call_failed", "Failed to run mcp call" ∷ "Failed to execute action" ∷ [])
    ∷ ("mcp_tool_error", "MCP tool error" ∷ [])
    ∷ (
      "transport_gateway",
      "peer closed connection" ∷ "incomplete chunked" ∷ "Bad Gateway" ∷ "503"
          ∷ "Network communication error" ∷ [],
    )
    ∷ ("task_timeout", "per-task timeout" ∷ [])
    ∷ ("run_timeout", "run exceeded timeout of" ∷ [])
    ∷ ("run_interrupted", "run was interrupted before completing" ∷ [])
    ∷ ("action_limit", "limit_reached (" ∷ [])
    ∷ (
      "agent_defect",
      "missing assistant content" ∷ "cannot pickle" ∷ "has no attribute 'model_dump'"
          ∷ "No action with is_message=True" ∷ [],
    )
    ∷ ("tool_choice_unsupported", "\"auto\" tool choice" ∷ [])
    ∷ ("session_terminated", "Session terminated" ∷ [])
    ∷ ("judge_call_failed", "llmclient: HTTP" ∷ [])
    ∷ ("wrong_answer", "Error executing submit" ∷ "does not match" ∷ [])
    ∷ ("timed_out", "timed out" ∷ "TimeoutError" ∷ "ReadTimeout" ∷ "ConnectTimeout" ∷ [])
    ∷ []

unfoldable pub labels_of : List (String × List String) → List String
labels_of [] = "other" ∷ []
labels_of ((label, _) ∷ rest) = label ∷ labels_of rest

-- `CATEGORIES`
unfoldable pub categories : List String
unfolding labels_of
categories = labels_of causes

unfoldable pub first_label : List (String × List String) → String → String
first_label [] message = "other"
first_label ((label, patterns) ∷ rest) message =
    if any (contains message) patterns then label else first_label rest message

unfoldable pub classify : Option String → Option String
classify none = none
classify (some message) = if is_blank message then none else some (first_label causes message)

-- The text that is published of a category and a shape.
unfoldable pub published : String → String → String
published category shape = category ⧺ (" (shape " ⧺ (shape ⧺ ")"))

unfoldable pub text_or_null : Option String → Json
text_or_null none = null
text_or_null (some text) = str text

-- `public_error(…) or ""`
unfoldable pub text_or_empty : Json → Json
text_or_empty null = str ""
text_or_empty value = value

-- `d[key] = value`, if there is a value
unfoldable pub set_clean : String → Option Json → Fields → Option Fields
set_clean key none fields = none
set_clean key (some clean) fields = some (set_field key clean fields)

module _ (shape_id : String → String) where
  unfoldable pub public_error : Option String → Option String
  public_error none = none
  public_error (some message) = elim (classify (some message)) [
    | none ↦ none
    | some category ↦ some (published category (shape_id message))
  ]

  module _ (is_zero : String → Bool) where
    -- `public_error` of any value of a dump. Of one that is true and no text, `strip` raises, which is
    -- `none` here and below.
    unfoldable pub public_json : Json → Option Json
    public_json (str message) = some (text_or_null (public_error (some message)))
    public_json value = if truth is_zero value then none else some null

    -- `if key in d: d[key] = public_error(d[key])`, on a copy
    unfoldable pub scrub_at : String → Option Json → Fields → Option Fields
    scrub_at key none fields = some fields
    scrub_at key (some value) fields = set_clean key (public_json value) fields

    unfoldable pub scrub_key : String → Fields → Option Fields
    unfolding scrub_at
    scrub_key key fields = scrub_at key (lookup key fields) fields

    unfoldable pub scrub_task : Json → Option Json
    scrub_task (object fields) = Option.map object (scrub_key "error" fields)
    scrub_task task = some task

    unfoldable pub scrub_tasks : Items → Option Items
    scrub_tasks nil = some nil
    scrub_tasks (cons task rest) = elim (scrub_task task) [
      | none ↦ none
      | some clean ↦ elim (scrub_tasks rest) [
        | none ↦ none
        | some others ↦ some (cons clean others)
      ]
    ]

    -- `results` is rewritten only if it is there and a list.
    unfoldable pub scrub_results : Option Json → Fields → Option Fields
    scrub_results (some (array tasks)) fields =
        set_clean "results" (Option.map array (scrub_tasks tasks)) fields
    scrub_results _ fields = some fields

    unfoldable pub scrub_run_summary : Fields → Option Fields
    unfolding scrub_results
    scrub_run_summary summary = elim (scrub_key "error" summary) [
      | none ↦ none
      | some out ↦ scrub_results (lookup "results" out) out
    ]

    -- A record whose `status_message` is false is handed on as it is.
    status_of : Json → Fields → Option Json
    status_of message record_fields =
        if truth is_zero message
        then elim (public_json message) [
          | none ↦ none
          | some clean ↦
              some (object (set_field "status_message" (text_or_empty clean) record_fields))
        ]
        else some (object record_fields)

    unfoldable pub scrub_record : Json → Option Json
    unfolding status_of
    scrub_record (object fields) = elim (lookup "status_message" fields) [
      | none ↦ some (object fields)
      | some message ↦ status_of message fields
    ]
    scrub_record other = some other

    unfoldable pub scrub_records : Items → Option Items
    scrub_records nil = some nil
    scrub_records (cons record_dict rest) = elim (scrub_record record_dict) [
      | none ↦ none
      | some clean ↦ elim (scrub_records rest) [
        | none ↦ none
        | some others ↦ some (cons clean others)
      ]
    ]
