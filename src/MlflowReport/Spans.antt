-- ===== src/MlflowReport/Spans.antt =====
-- mlflow_report.py, `transform_spans` and the names of spans. A span of the server is read with the
-- fields of the REST API; its attributes are JSON. `F` is the type of floats.
pub mod Kinds
use autobench.Prelude.{
  ℕ, String, Bool, true, false, not, ◌&&◌, ◌||◌, Option, none, some, List, [], ◌∷◌, ◌==◌, map,
  is_some, eqb, if◌then◌else◌,
}
use autobench.Prelude.Json.{Json, Fields, object, end, field, lookup, put_field}
use autobench.Prelude.Text.{begins, split}

-- One entry of `attributes`: its key, and its `value`.
abbrev pub RawAttribute : Type 0
RawAttribute = String × Json

-- `status` is none where it is no object; a missing one is an empty one.
pub record RawStatus : Type 0 where
  pub code : Option String
  pub message : Option String

pub record RawSpan : Type 0 where
  pub name : Option String
  pub trace_id : Option String
  pub span_id : Option String
  pub parent_span_id : Option String
  pub start_time_unix_nano : Option ℕ
  pub end_time_unix_nano : Option ℕ
  pub status : Option RawStatus
  pub attributes : List RawAttribute

pub record Span (F : Type 0) : Type 0 where
  pub name : String
  pub status_code : String
  pub status_message : String
  pub latency_ms : F
  pub start_time : String
  pub parent_id : Option String
  pub trace_id : String
  pub span_id : String
  pub attributes : Fields

pub record Trace (F : Type 0) : Type 0 where
  pub trace_id : String
  pub spans : List (Span F)

-- `d.get(key, default)`
abbrev pub given : {A : Type 0} → A → Option A → A
given default none = default
given default (some v) = v

-- `_STATUS_MAP.get(code, code)`
unfoldable pub status_text : String → String
status_text code =
    if code == "STATUS_CODE_OK"
    then "OK"
    else if code == "STATUS_CODE_ERROR"
    then "ERROR"
    else if code == "STATUS_CODE_UNSET"
    then "UNSET"
    else code

-- The first of the four typed values of a `value` object.
unfoldable pub typed_value : List String → Fields → Option Json
typed_value [] value = none
typed_value (vtype ∷ rest) value = elim (lookup vtype value) [
  | some v ↦ some v
  | none ↦ typed_value rest value
]

abbrev value_types : List String
value_types = "string_value" ∷ "int_value" ∷ "double_value" ∷ "bool_value" ∷ []

abbrev set_found : String → Option Json → Fields → Fields
set_found key none flat = flat
set_found key (some v) flat = put_field key v flat

unfoldable pub flat_attribute : RawAttribute → Fields → Fields
flat_attribute (key, object value) flat = set_found key (typed_value value_types value) flat
flat_attribute (key, value) flat = put_field key value flat

-- The OTLP attribute list as a flat dict of values.
unfoldable pub flat_attrs : Fields → List RawAttribute → Fields
flat_attrs flat [] = flat
flat_attrs flat (item ∷ items) = flat_attrs (flat_attribute item flat) items

-- `d.get(part)`, or the new dict that replaces what is no dict
abbrev pub dict_at : Option Json → Fields
dict_at (some (object d)) = d
dict_at _ = end

-- `d` with the value at the end of the path of keys; `split` returns one part at least.
unfoldable pub put_path : List String → Json → Fields → Fields
put_path [] v d = d
put_path (part ∷ []) v d = put_field part v d
put_path (part ∷ parts) v d = put_field part (object (put_path parts v (dict_at (lookup part d)))) d

-- Nest dotted keys; what MLflow keeps for itself is skipped.
unfoldable pub nested_attrs : Fields → Fields → Fields
nested_attrs nested end = nested
nested_attrs nested (field k v rest) =
    nested_attrs (if begins "mlflow." k then nested else put_path (split "." k) v nested) rest

-- `latency_ms` of two instants in nanoseconds that are not 0, its value 0 without them, and
-- `isoformat` of an instant.
pub record Clocks (F : Type 0) : Type 0 where
  pub latency : ℕ → ℕ → F
  pub zero_f : F
  pub iso : ℕ → String

abbrev code_of : Option RawStatus → String
code_of none = "UNSET"
code_of (some status) = given "UNSET" status.code

abbrev message_of : Option RawStatus → String
message_of none = ""
message_of (some status) = given "" status.message

unfoldable pub transform_span : {F : Type 0} → Clocks F → RawSpan → Span F
transform_span clocks span =
    let start_ns = given 0 span.start_time_unix_nano in
    let end_ns = given 0 span.end_time_unix_nano in
    record {
      name = given "" span.name;
      status_code = status_text (code_of span.status);
      status_message = message_of span.status;
      latency_ms =
          if eqb start_ns 0 || eqb end_ns 0 then clocks.zero_f else clocks.latency start_ns end_ns;
      start_time = if eqb start_ns 0 then "" else clocks.iso start_ns;
      parent_id = span.parent_span_id;
      trace_id = given "" span.trace_id;
      span_id = given "" span.span_id;
      attributes = nested_attrs end (flat_attrs end span.attributes);
    }

unfoldable pub transform_spans : {F : Type 0} → Clocks F → List RawSpan → List (Span F)
transform_spans clocks raw_spans = map (transform_span clocks) raw_spans

-- `ROOT_SPAN`, `_AGENT_PREFIX`, `INITIAL_OBS_SPAN`
abbrev pub root_span : String
root_span = "Agent.Session"

abbrev pub agent_prefix : String
agent_prefix = "invoke_agent"

abbrev pub initial_obs_span : String
initial_obs_span = "execute_tool initial_observation"

-- `_is_chat`
unfoldable pub is_chat : String → Bool
is_chat name = begins "chat " name

-- `_is_tool`
unfoldable pub is_tool : String → Bool
is_tool name = begins "execute_tool " name && not (name == initial_obs_span)

-- `name in _PHASE_SPANS`
abbrev pub is_phase : String → Bool
is_phase name = name == "MCP.CreateSession" || name == "Agent.Call" || name == "Evaluator.Evaluate"

-- `_span_kind`
unfoldable pub span_kind : String → String
span_kind name =
    if name == root_span
    then "root"
    else if is_phase name
    then "phase"
    else if begins agent_prefix name
    then "agent"
    else if is_chat name
    then "chat"
    else if begins "execute_tool " name
    then "tool"
    else "other"
