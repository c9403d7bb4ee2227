-- ===== src/MlflowReport/Rows.antt =====
-- mlflow_report.py, `span_rows`: one row of scalars for each span. `str`, `int` and `float` of a value
-- are arguments; none is that an exception is raised.
pub mod Scalars
pub mod Counted
pub mod Agreement
use autobench.Prelude.{
  ℕ, zero, suc, String, ◌⧺◌, Bool, true, false, not, ◌&&◌, ◌||◌, Option, none, some, List, [], ◌∷◌,
  ◌++◌, ◌==◌, select, any, is_some, is_set, truthy, if◌then◌else◌,
}
use autobench.Prelude.Dict.{Dict, get, put}
use autobench.Prelude.Json.{
  Json, Items, Fields, null, bool, number, str, array, object, nil, cons, end, field, lookup,
  get_or,
}
use autobench.Prelude.Text.{begins, join, decimal}
use autobench.MlflowReport.Spans.{Span, Trace, root_span, agent_prefix, is_chat, is_tool, span_kind}
use autobench.MlflowReport.Download.{dict_field}
use autobench.MlflowReport.Parse.{same_text}
use autobench.MlflowReport.Parse.Record.{◌>>=◌}

pub record SpanRow : Type 0 where
  pub task_id : Json
  pub session_id : Json
  pub trace_id : Json
  pub span_id : Json
  pub parent_span_id : Json
  pub name : Json
  pub kind : String
  pub parent_name : Json
  pub depth : ℕ
  pub start_time : Json
  pub latency_ms : Json
  pub status_code : Json
  pub error_type : Json
  pub counted : Option Bool
  pub input_tokens : Json
  pub output_tokens : Json
  pub request_model : Json
  pub request_max_tokens : Json
  pub finish_reasons : Json

abbrev pub flag : Option Bool → Json
flag none = null
flag (some b) = bool b

-- The row as a dict, with the keys `SPAN_ROW_KEYS`.
unfoldable pub dump_row : SpanRow → Fields
dump_row r = field "task_id" r.task_id (
    field "session_id" r.session_id (
      field "trace_id" r.trace_id (
        field "span_id" r.span_id (
          field "parent_span_id" r.parent_span_id (
            field "name" r.name (
              field "kind" (str r.kind) (
                field "parent_name" r.parent_name (
                  field "depth" (number (decimal r.depth)) (
                    field "start_time" r.start_time (
                      field "latency_ms" r.latency_ms (
                        field "status_code" r.status_code (
                          field "error_type" r.error_type (
                            field "counted" (flag r.counted) (
                              field "input_tokens" r.input_tokens (
                                field "output_tokens" r.output_tokens (
                                  field "request_model" r.request_model (
                                    field "request_max_tokens" r.request_max_tokens
                                      (field "finish_reasons" r.finish_reasons end))))))))))))))))))

-- `str(value)`, the numerals of `int(value)` and `float(value)`, and a latency as a numeral.
pub record Casts (F : Type 0) : Type 0 where
  pub repr : Json → String
  pub int_cast : Json → Option String
  pub latency : F → String

abbrev pub numeral : Option String → Json
numeral none = null
numeral (some n) = number n

-- `value or None` of a text
abbrev pub text_json : String → Json
text_json text = if truthy text then str text else null

abbrev pub optional : Option String → Json
optional none = null
optional (some text) = str text

unfoldable pub texts : (Json → String) → Items → List String
texts repr nil = []
texts repr (cons v items) = repr v ∷ texts repr items

module _ {F : Type 0} (casts : Casts F) where
  -- `_scalar(value)`
  unfoldable pub scalar : Json → Json
  scalar (array items) = text_json (join "," (texts casts.repr items))
  scalar (object fields) = str (casts.repr (object fields))
  scalar value = value

  -- `_scalar(value, int)`
  unfoldable pub scalar_int : Json → Json
  scalar_int (number n) = numeral (casts.int_cast (number n))
  scalar_int (str text) = numeral (casts.int_cast (str text))
  scalar_int value = scalar value

  -- `by_id`: the last span of an id is found.
  unfoldable pub by_id : Dict (Span F) → List (Span F) → Dict (Span F)
  by_id d [] = d
  by_id d (s ∷ spans) = by_id (if truthy s.span_id then put s.span_id s d else d) spans

  unfoldable pub first_agent : List (Span F) → Option String
  first_agent [] = none
  first_agent (s ∷ spans) =
      let rest = first_agent spans in if begins agent_prefix s.name then some s.span_id else rest

  unfoldable pub first_root : List (Span F) → Option (Span F)
  first_root [] = none
  first_root (s ∷ spans) =
      let rest = first_root spans in if s.name == root_span then some s else rest

  -- `by_id.get(parent_id) if parent_id else None`
  unfoldable pub parent_of : Dict (Span F) → Span F → Option (Span F)
  parent_of spans_by_id s = elim s.parent_id [
    | none ↦ none
    | some parent_id ↦ if truthy parent_id then get parent_id spans_by_id else none
  ]

  abbrev seen_text : List String → Option String → Bool
  seen_text seen parent_id = any (λ known. same_text parent_id (some known)) seen

  abbrev see : Option String → List String → List String
  see none seen = seen
  see (some parent_id) seen = parent_id ∷ seen

  -- `_depth`, with the hops that are left and the ids that were seen
  unfoldable pub depth : Dict (Span F) → ℕ → List String → Span F → ℕ
  depth spans_by_id zero seen cur = 0
  depth spans_by_id (suc limit) seen cur = elim (parent_of spans_by_id cur) [
    | none ↦ 0
    | some parent ↦ elim (seen_text seen cur.parent_id) [
      | true ↦ 0
      | false ↦ suc (depth spans_by_id limit (see cur.parent_id seen) parent)
    ]
  ]

  -- `gen_ai.get(key, {}) if isinstance(gen_ai, dict) else {}`
  unfoldable pub part_of : String → Json → Option Fields
  part_of key (object gen_ai) = dict_field key gen_ai
  part_of key _ = some end

  -- `(attrs.get("error") or {}).get("type")` of a dict
  unfoldable pub error_type_of : Option Json → Json
  error_type_of (some (object error)) = get_or "type" null error
  error_type_of _ = null

  unfoldable pub counted_of : Option String → Span F → Option Bool
  counted_of invoke_span_id s =
      let kind = span_kind s.name in
      if kind == "chat" || kind == "tool"
      then some (same_text s.parent_id invoke_span_id && (is_chat s.name || is_tool s.name))
      else none

  abbrev name_of : Option (Span F) → Json
  name_of none = null
  name_of (some parent) = str parent.name

  unfoldable pub make_row :
      Json → Json → Dict (Span F) → Option String → Span F → Fields → Fields → Fields → SpanRow
  make_row task_id session_id spans_by_id invoke_span_id s usage request response = record {
    task_id = scalar task_id;
    session_id = scalar session_id;
    trace_id = str s.trace_id;
    span_id = str s.span_id;
    parent_span_id = optional s.parent_id;
    name = str s.name;
    kind = span_kind s.name;
    parent_name = name_of (parent_of spans_by_id s);
    depth = depth spans_by_id 32 [] s;
    start_time = str s.start_time;
    latency_ms = number (casts.latency s.latency_ms);
    status_code = str s.status_code;
    error_type = scalar (error_type_of (lookup "error" s.attributes));
    counted = counted_of invoke_span_id s;
    input_tokens = scalar_int (get_or "input_tokens" null usage);
    output_tokens = scalar_int (get_or "output_tokens" null usage);
    request_model = scalar (get_or "model" null request);
    request_max_tokens = scalar_int (get_or "max_tokens" null request);
    finish_reasons = scalar (get_or "finish_reasons" null response);
  }

  unfoldable pub span_row : Json → Json → Dict (Span F) → Option String → Span F → Option SpanRow
  span_row task_id session_id spans_by_id invoke_span_id s = do
    let gen_ai = get_or "gen_ai" (object end) s.attributes
    usage ← part_of "usage" gen_ai
    request ← part_of "request" gen_ai
    response ← part_of "response" gen_ai
    some (make_row task_id session_id spans_by_id invoke_span_id s usage request response)

  -- The row of each span, from `row`.
  unfoldable pub each_row : (Span F → Option SpanRow) → List (Span F) → Option (List SpanRow)
  each_row row [] = some []
  each_row row (s ∷ spans) = row s >>= λ r. each_row row spans >>= λ rows. some (r ∷ rows)

  unfoldable pub rows_under : List (Span F) → Span F → Option (List SpanRow)
  rows_under spans root = do
    meta ← dict_field "metadata" root.attributes
    each_row
        (span_row (get_or "task_id" null meta) (get_or "session_id" (str "unknown") meta)
          (by_id [] spans) (first_agent spans))
        spans

  -- The rows of one trace; a trace without a root has none.
  unfoldable pub trace_rows : Trace F → Option (List SpanRow)
  trace_rows trace = elim (first_root trace.spans) [
    | none ↦ some []
    | some root ↦ rows_under trace.spans root
  ]

  unfoldable pub span_rows : List (Trace F) → Option (List SpanRow)
  span_rows [] = some []
  span_rows (trace ∷ traces) =
      trace_rows trace >>= λ rows. span_rows traces >>= λ others. some (rows ++ others)
