-- ===== src/Reference/Causelib.antt =====
-- reference/causelib.py: the label of an error in a report, for errors that are published in the scrubbed
-- form and for verbatim ones.
pub mod Parsed
pub mod Labelled
use Prim.Native.Char.{Char, code}
use autobench.Prelude.{
  ℕ, zero, suc, String, Bool, true, false, not, ◌&&◌, ◌||◌, Option, none, some, List, [], ◌∷◌, ◌++◌,
  map, ◌==◌, any, select, contains, leb, eqb, truthy, if◌then◌else◌,
}
use autobench.Prelude.Text.{strip, without_prefix}
use autobench.Prelude.Dict.{Dict, get, put}

-- `_LEGACY`
unfoldable pub legacy : List (String × List String)
legacy =
    ("health probe (Bug 3)", "/v1/models" ∷ [])
    ∷ (
      "transport / gateway",
      "peer closed connection" ∷ "incomplete chunked" ∷ "503" ∷ "Network communication error" ∷ [],
    )
    ∷ ("per-task timeout", "per-task timeout" ∷ [])
    ∷ ("agent (upstream defect)", "missing assistant content" ∷ "cannot pickle" ∷ [])
    ∷ ("IBAC judge call failed", "llmclient: HTTP" ∷ [])
    ∷ ("wrong answer", "Error executing submit" ∷ "does not match" ∷ [])
    ∷ ("task timed out (unattributed)", "timed out" ∷ [])
    ∷ []

-- `_SLUG_LABELS`
unfoldable pub slug_labels : Dict String
slug_labels =
    ("model_probe_failed", "health probe (Bug 3)")
    ∷ ("transport_gateway", "transport / gateway")
    ∷ ("agent_card_unreachable", "transport / gateway")
    ∷ ("task_timeout", "per-task timeout")
    ∷ ("agent_defect", "agent (upstream defect)")
    ∷ ("tool_choice_unsupported", "agent (upstream defect)")
    ∷ ("judge_call_failed", "IBAC judge call failed")
    ∷ ("wrong_answer", "wrong answer")
    ∷ ("budget_exceeded", "gateway budget / entitlement")
    ∷ ("model_not_granted", "gateway budget / entitlement")
    ∷ ("model_auth_failed", "gateway budget / entitlement")
    ∷ ("rate_limited", "gateway budget / entitlement")
    ∷ ("mcp_session_poisoned", "MCP unreachable")
    ∷ ("mcp_connect_timeout", "MCP unreachable")
    ∷ ("mcp_call_failed", "MCP unreachable")
    ∷ ("mcp_tool_error", "MCP unreachable")
    ∷ ("run_timeout", "run-level timeout")
    ∷ ("run_interrupted", "run interrupted")
    ∷ ("action_limit", "agent action/step limit")
    ∷ ("session_terminated", "session terminated")
    ∷ ("timed_out", "task timed out (unattributed)")
    ∷ ("other", "other")
    ∷ []

-- `tuple(dict.fromkeys(texts))`: the texts, each at its first place.
from_keys : List String → Dict (Unit {0}) → Dict (Unit {0})
from_keys [] d = d
from_keys (text ∷ texts) d = from_keys texts (put text tt d)

-- `LABELS`
unfoldable pub labels : List String
unfolding from_keys legacy slug_labels
labels =
    map (λ e. e.0)
      (from_keys
        (map (λ row. row.0) legacy
          ++ (select (λ v. not (v == "other")) (map (λ e. e.1) slug_labels) ++ "other" ∷ []))
        [])

-- `[a-z_]` and `[0-9a-f]`
unfoldable pub is_slug_char : Char → Bool
is_slug_char c = (leb 97 (code c) && leb (code c) 122) || eqb (code c) 95

unfoldable pub is_hex_char : Char → Bool
is_hex_char c = (leb 48 (code c) && leb (code c) 57) || (leb 97 (code c) && leb (code c) 102)

-- The longest front whose characters all pass the test, and the rest.
unfoldable pub span : (Char → Bool) → String → String × String
span test String.[] = ("", "")
span test (String.◌∷◌ c rest) =
    let (front, back) = span test rest in
    if test c then (String.◌∷◌ c front, back) else ("", String.◌∷◌ c rest)

-- So many characters that all pass the test, and the rest.
unfoldable pub exactly : ℕ → (Char → Bool) → String → Option (String × String)
exactly zero test text = some ("", text)
exactly (suc n) test String.[] = none
exactly (suc n) test (String.◌∷◌ c text) =
    if test c
    then (elim (exactly n test text) [
      | none ↦ none
      | some (front, rest) ↦ some (String.◌∷◌ c front, rest)
    ])
    else none

-- After the category: ` (shape `, eight digits and `)`, up to the end.
shape_end : Option (String × String) → Option String
shape_end none = none
shape_end (some (shape, rest)) = if rest == ")" then some shape else none

shape_digits : Option String → Option String
shape_digits none = none
shape_digits (some digits) = shape_end (exactly 8 is_hex_char digits)

unfoldable pub parse_shape : String → Option String
unfolding shape_end shape_digits
parse_shape text = shape_digits (without_prefix " (shape " text)

with_shape : String → Option String → Option (String × String)
with_shape category none = none
with_shape category (some shape) = some (category, shape)

parse_category : String × String → Option (String × String)
unfolding with_shape
parse_category (category, rest) =
    if truthy category then with_shape category (parse_shape rest) else none

abbrev pub or_nothing : Option String → String
or_nothing none = ""
or_nothing (some text) = text

-- `parse_scrubbed`. A category's greedy match never gives back: no character of it is a space.
unfoldable pub parse_scrubbed : Option String → Option (String × String)
unfolding parse_category
parse_scrubbed msg = parse_category (span is_slug_char (strip (or_nothing msg)))

-- `_OTHER_SHAPES`
unfoldable pub other_shapes : Dict String
other_shapes = ("03deb26f", "action_limit") ∷ []

abbrev pub get_or : String → Option String → String
get_or default none = default
get_or default (some text) = text

-- The slug whose label a parsed value has.
unfoldable pub slug_of : String × String → String
slug_of (category, shape) =
    if category == "other" then get_or category (get shape other_shapes) else category

unfoldable pub label_of : String → String
label_of slug = get_or "other" (get slug slug_labels)

unfoldable pub first_label : List (String × List String) → String → String
first_label [] text = "other"
first_label ((label, patterns) ∷ rest) text =
    let later = first_label rest text in if any (contains text) patterns then label else later

unfoldable pub cause : Option String → String
cause msg = elim (parse_scrubbed msg) [
  | some parsed ↦ label_of (slug_of parsed)
  | none ↦ first_label legacy (or_nothing msg)
]

-- `text.endswith(suffix)`
ends_with : String → String → Bool
ends_with suffix String.[] = suffix == ""
ends_with suffix (String.◌∷◌ c rest) =
    let later = ends_with suffix rest in String.◌∷◌ c rest == suffix || later

unfoldable pub is_probe_failure : Option String → Bool
unfolding ends_with
is_probe_failure msg = elim (parse_scrubbed msg) [
  | some (category, _) ↦ category == "model_probe_failed"
  | none ↦ ends_with "/v1/models" (or_nothing msg)
]

-- `shape`
unfoldable pub shape : Option String → Option String
shape msg = elim (parse_scrubbed msg) [ none ↦ none | some (_, id) ↦ some id ]
