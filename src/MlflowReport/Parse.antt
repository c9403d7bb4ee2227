-- ===== src/MlflowReport/Parse.antt =====
-- mlflow_report.py, `parse_traces`: a trace is made into a record. `F` is the type of floats; their
-- operations, `int`, `float`, what the model's fields accept and the reading of a time are arguments.
-- none is that an exception is raised.
pub mod Record
pub mod Chats
pub mod Pods
pub mod Counters
use autobench.Prelude.{
  ℕ, ◌+◌, String, Bool, true, false, not, ◌&&◌, ◌||◌, Option, none, some, List, [], ◌∷◌, ◌++◌, ◌==◌,
  select, map, is_set, truthy, if◌then◌else◌,
}
use autobench.Prelude.Json.{Json, Fields, number, lookup, get_or, truth}
use autobench.Models.Report.{MlflowTraceRecord}
use autobench.MlflowReport.Spans.{
  Span, Trace, root_span, agent_prefix, initial_obs_span, is_chat, is_tool,
}
use autobench.MlflowReport.Download.{dict_field}
use autobench.MlflowReport.Parse.Record.{
  Reading, ◌>>=◌, or_json, last_root, first_model, new_record, set_infra,
}
use autobench.Prelude.Text.{begins}

-- What the first loop over the children has set.
pub record Phases (F : Type 0) : Type 0 where
  pub trace_record : MlflowTraceRecord F
  pub invoke_start : Option String
  pub invoke_span_id : Option String

-- What the second one has, with the chat spans in order.
pub record Inner (F : Type 0) : Type 0 where
  pub trace_record : MlflowTraceRecord F
  pub initial_obs_start : Option String
  pub chat_spans : List (Span F)

-- `a == b` of texts that may be None
unfoldable pub same_text : Option String → Option String → Bool
same_text none none = true
same_text (some a) (some b) = a == b
same_text _ _ = false

abbrev pub is_root : {F : Type 0} → Span F → Bool
is_root s = s.name == root_span

module _ {F : Type 0} (reading : Reading F) where
  -- A phase's time, or the agent's span: the last one counts.
  unfoldable pub phase_step : Span F → Phases F → Phases F
  phase_step s p =
      let r = p.trace_record in
      let latency_s = reading.seconds s.latency_ms in
      if s.name == "MCP.CreateSession"
      then record p { trace_record = record r { session_creation_s = latency_s } }
      else if s.name == "Agent.Call"
      then record p { trace_record = record r { agent_call_s = latency_s } }
      else if s.name == "Evaluator.Evaluate"
      then record p { trace_record = record r { evaluation_s = latency_s } }
      else if begins agent_prefix s.name
      then record p { invoke_start = some s.start_time; invoke_span_id = some s.span_id }
      else p

  unfoldable pub phases : List (Span F) → Phases F → Phases F
  phases [] p = p
  phases (s ∷ children) p = phases children (phase_step s p)

  -- A child of the agent's span.
  unfoldable pub inner_step : Option String → Span F → Inner F → Inner F
  inner_step invoke_span_id s i =
      let r = i.trace_record in
      if not (same_text s.parent_id invoke_span_id)
      then i
      else if is_chat s.name
      then record i { chat_spans = i.chat_spans ++ s ∷ [] }
      else if s.name == initial_obs_span
      then record i { initial_obs_start = some s.start_time }
      else if is_tool s.name
      then record i {
        trace_record = record r {
          tool_total_s = reading.add r.tool_total_s (reading.seconds s.latency_ms);
          tool_count = r.tool_count + 1;
        };
      }
      else i

  unfoldable pub inner : Option String → List (Span F) → Inner F → Inner F
  inner invoke_span_id [] i = i
  inner invoke_span_id (s ∷ children) i =
      inner invoke_span_id children (inner_step invoke_span_id s i)

  -- `t_obs`: none if there is no text, or no time in it.
  unfoldable pub observed_at : Option String → Option F
  observed_at none = none
  observed_at (some text) = if truthy text then reading.instant text else none

  -- Whether a chat span counts as one after the observation.
  unfoldable pub is_after : Option F → String → Bool
  is_after none chat_start = true
  is_after (some t_obs) chat_start =
      if truthy chat_start
      then elim (reading.instant chat_start) [
        | none ↦ true
        | some t_chat ↦ reading.at_least t_chat t_obs
      ]
      else true

  unfoldable pub add_after : Bool → F → MlflowTraceRecord F → MlflowTraceRecord F
  add_after is_after_obs latency_s r =
      if is_after_obs
      then record r {
        llm_after_obs_s = reading.add r.llm_after_obs_s latency_s;
        llm_count_after_obs = r.llm_count_after_obs + 1;
      }
      else r

  unfoldable pub add_chat : ℕ → ℕ → F → MlflowTraceRecord F → MlflowTraceRecord F
  add_chat input output latency_s r = record r {
    llm_total_s = reading.add r.llm_total_s latency_s;
    llm_count = r.llm_count + 1;
    llm_input_tokens = r.llm_input_tokens + input;
    llm_output_tokens = r.llm_output_tokens + output;
  }

  -- `_parse_attrs(span).get("gen_ai", {}).get("usage", {})`, and `int(usage.get(key, 0) or 0)`
  unfoldable pub usage_of : Span F → Option Fields
  usage_of s = dict_field "gen_ai" s.attributes >>= λ gen_ai. dict_field "usage" gen_ai

  unfoldable pub tokens_of : String → Fields → Option ℕ
  tokens_of key usage =
      reading.int_of (or_json reading (get_or key (number "0") usage) (number "0"))

  unfoldable pub chats :
      Option F → List (Span F) → MlflowTraceRecord F → Option (MlflowTraceRecord F)
  chats t_obs [] r = some r
  chats t_obs (s ∷ spans) r =
      let latency_s = reading.seconds s.latency_ms in
      usage_of s >>= λ usage. tokens_of "input_tokens" usage >>= λ input.
      tokens_of "output_tokens" usage >>= λ output.
      chats t_obs spans
        (add_after (is_after t_obs s.start_time) latency_s (add_chat input output latency_s r))

  -- `max((t_obs_dt - t_invoke).total_seconds(), 0.0)`, where both are times
  unfoldable pub first_obs :
      Option String → Option String → MlflowTraceRecord F → MlflowTraceRecord F
  first_obs invoke_start initial_obs_start r =
      if is_set invoke_start && is_set initial_obs_start
      then elim (observed_at invoke_start) [
        | none ↦ r
        | some t_invoke ↦ elim (observed_at initial_obs_start) [
          | none ↦ r
          | some t_obs ↦ record r {
            time_to_first_obs_s = reading.max (reading.sub t_obs t_invoke) reading.zero_f;
          }
        ]
      ]
      else r

  unfoldable pub overhead : MlflowTraceRecord F → MlflowTraceRecord F
  overhead r =
      if reading.is_positive r.agent_call_s
      then record r {
        overhead_s =
            reading.max
              (reading.sub
                (reading.sub (reading.sub r.agent_call_s r.time_to_first_obs_s) r.llm_after_obs_s)
                r.tool_total_s)
              reading.zero_f;
      }
      else r

  -- The metadata's durations, where there was no span.
  unfoldable pub fallbacks : Fields → Fields → MlflowTraceRecord F → Option (MlflowTraceRecord F)
  fallbacks meta root_attrs r = do
    let recorded = dict_field "meta_data" root_attrs >>= λ meta_data.
        reading.float_of (get_or "agent_call_duration_seconds" (number "0") meta_data)
    agent_call_s ← if reading.is_zero_f r.agent_call_s then recorded else some r.agent_call_s
    evaluation_s ←
        if reading.is_zero_f r.evaluation_s
        then reading.float_of (get_or "evaluation_duration_seconds" (number "0") meta)
        else some r.evaluation_s
    some record r { agent_call_s = agent_call_s; evaluation_s = evaluation_s }

  -- The timings and the counters of a record, from the children of the root.
  unfoldable pub measure : List (Span F) → MlflowTraceRecord F → Option (MlflowTraceRecord F)
  measure children new =
      let p =
        phases children
          (record { trace_record = new; invoke_start = none; invoke_span_id = none }) in
      let i =
        inner p.invoke_span_id children
          (record { trace_record = p.trace_record; initial_obs_start = none; chat_spans = [] }) in
      chats (observed_at i.initial_obs_start) i.chat_spans i.trace_record >>= λ r.
      some (overhead (first_obs p.invoke_start i.initial_obs_start r))

  unfoldable pub children_of : List (Span F) → List (Span F)
  children_of spans = select (λ s. not (is_root s)) spans

  unfoldable pub parse_root : List (Span F) → Span F → Option (MlflowTraceRecord F)
  parse_root spans root = do
    meta ← dict_field "metadata" root.attributes
    model ← first_model reading (children_of spans)
    new ← new_record reading root meta model
    measured ← measure (children_of spans) new
    whole ← fallbacks meta root.attributes measured
    set_infra reading root.attributes whole

  -- The record of one trace; a trace without a root has none.
  unfoldable pub parse_trace : Trace F → Option (Option (MlflowTraceRecord F))
  parse_trace trace = elim (last_root reading none trace.spans) [
    | none ↦ some none
    | some root ↦ parse_root trace.spans root >>= λ r. some (some r)
  ]

  abbrev add_record :
      Option (MlflowTraceRecord F) → List (MlflowTraceRecord F) → List (MlflowTraceRecord F)
  add_record none records = records
  add_record (some r) records = r ∷ records

  unfoldable pub parse_traces : List (Trace F) → Option (List (MlflowTraceRecord F))
  parse_traces [] = some []
  parse_traces (trace ∷ traces) =
      parse_trace trace >>= λ r. parse_traces traces >>= λ records. some (add_record r records)
