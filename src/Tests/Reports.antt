-- ===== src/Tests/Reports.antt =====
-- A page of traces, and a trace with a chat span and a tool span under its agent.
use autobench.Prelude.{
  ℕ, ◌+◌, ◌-◌, ◌≤◌, max, String, true, ◌≡◌, refl, Option, none, some, List, [], ◌∷◌, ◌==◌, eqb, ltb,
  leb, length, select, count_if, All, arith,
}
use autobench.Prelude.Json.{Json, Fields, str, object, end, field, lookup}
use autobench.Prelude.Text.{without_prefix}
use autobench.Prelude.Outcome.{return}
use autobench.Models.Config.{MlflowConfig}
use autobench.Models.Report.{MlflowTraceRecord, ReportAggregate}
use autobench.MlflowReport.Spans.{Span, Trace, is_chat, is_tool, span_kind}
use autobench.MlflowReport.Download.{TraceInfo, Page, Server, dict_field, is_last, list_traces}
use autobench.MlflowReport.Download.Pages.{Serves, last, Listed, list_traces_ends}
use autobench.MlflowReport.Parse.{
  parse_trace, parse_root, children_of, measure, phases, phase_step, inner, inner_step, same_text,
  chats, usage_of, tokens_of, first_obs, overhead, fallbacks, observed_at, add_after, add_chat,
  is_after,
}
use autobench.MlflowReport.Parse.Record.{
  Reading, last_root, first_model, model_of, new_record, set_infra, pod_field, set_mcp, set_a2a,
}
use autobench.MlflowReport.Rows.{
  Casts, SpanRow, span_rows, trace_rows, rows_under, first_root, each_row, span_row, make_row,
  part_of, counted_of, first_agent,
}
use autobench.MlflowReport.Rows.Scalars.{OnSome, IsFlat, span_rows-IsFlat}
use autobench.MlflowReport.Rows.Counted.{counted_row}
use autobench.MlflowReport.Rows.Agreement.{rows_agree}
use autobench.MlflowReport.Aggregate.{Stats, GroupKey, same_key, key_of, aggregate}
use autobench.MlflowReport.Aggregate.Groups.{is_for, traces_for, aggregate_covers}

abbrev cfg : MlflowConfig
cfg = record {
  tracking_url = some "https://mlflow";
  client_id = none;
  client_secret = none;
  token_url = none;
  username = none;
  password = none;
  oauth_url = none;
  bearer_token = none;
  experiment_id = "1";
  workspace = none;
  insecure_tls = true;
}

abbrev info : ℕ → TraceInfo
info ts = record {
  request_id = some "tr-1";
  status = some "OK";
  timestamp_ms = some ts;
  execution_time_ms = some 5000;
}

abbrev page : Page
page = record { traces = info 20 ∷ info 5 ∷ []; next_page_token = none }

abbrev server : Server ℕ
server = record { list_page = λ req n. (return page, n); get_spans = λ req n. (return none, n) }

only_page : Serves server cfg "token" none (page ∷ []) 0
unfolding is_last
only_page = last none page 0 0 refl refl

list_traces_ends_example :
    Listed server cfg "token"
      (some 10)
      100
      []
      (info 20 ∷ info 5 ∷ [])
      (list_traces server cfg "token" (some 10) 100 1 [] none 0)
list_traces_ends_example =
    list_traces_ends server cfg "token" (some 10) 100 1 [] none (page ∷ []) 0 only_page
      (omega arith)

abbrev span : String → String → Option String → Fields → Span ℕ
span name span_id parent_id attributes = record {
  name = name;
  status_code = "OK";
  status_message = "";
  latency_ms = 10;
  start_time = "2026-10-01T00:00:00+00:00";
  parent_id = parent_id;
  trace_id = "tr-1";
  span_id = span_id;
  attributes = attributes;
}

abbrev pub trace : Trace ℕ
trace = record {
  trace_id = "tr-1";
  spans =
      span "Agent.Session" "1" none
        (field "metadata" (object (field "session_id" (str "s1") end)) end)
      ∷ span "invoke_agent tool_calling" "2" (some "1") end
      ∷ span "chat gpt" "3" (some "2") end
      ∷ span "execute_tool submit" "4" (some "2") end
      ∷ span "chat gpt" "5" (some "4") end
      ∷ [];
}

abbrev pub casts : Casts ℕ
casts = record { repr = λ _. "?"; int_cast = λ _. some "7"; latency = λ _. "10" }

abbrev pub text_of : Json → Option String
text_of (str text) = some text
text_of _ = none

abbrev pub reading : Reading ℕ
reading = record {
  zero_f = 0;
  add = λ a b. a + b;
  sub = λ a b. a - b;
  max = λ a b. max a b;
  is_positive = λ a. ltb 0 a;
  is_zero_f = λ a. eqb a 0;
  at_least = λ a b. leb b a;
  seconds = λ a. a;
  int_of = λ _. some 0;
  float_of = λ _. some 0;
  text_of = text_of;
  bool_of = λ _. none;
  is_zero = λ n. n == "0";
  instant = λ _. some 3;
}

span_rows-IsFlat_example : OnSome casts (All IsFlat) (span_rows casts (trace ∷ []))
span_rows-IsFlat_example = span_rows-IsFlat casts (trace ∷ [])

abbrev pub stats : Stats ℕ
stats = record {
  zero_f = 0;
  sorted = λ values. values;
  scaled = λ n p. n;
  mean = λ values. length values;
  rate = λ a b. a;
  half = 1;
  most = 2;
}

abbrev key : GroupKey
key = record {
  agent_name = "tool_calling";
  benchmark_name = "gsm8k";
  model = "gpt";
  num_parallel = 1;
}

made : (rows : List SpanRow) × (trace_rows casts trace ≡ some rows)
unfolding trace_rows rows_under first_root each_row span_row make_row part_of dict_field lookup
made = (_, refl)

parsed : (r : MlflowTraceRecord ℕ) × (parse_trace reading trace ≡ some (some r))
unfolding parse_trace parse_root last_root dict_field lookup children_of select first_model model_of
    new_record measure phases phase_step inner inner_step same_text chats usage_of tokens_of
    first_obs overhead fallbacks set_infra pod_field set_mcp set_a2a is_chat is_tool without_prefix
    observed_at add_after add_chat is_after
parsed = (_, refl)

rows_agree_example :
    (count_if (counted_row "chat") made.0 ≡ parsed.0.llm_count)
    × (count_if (counted_row "tool") made.0 ≡ parsed.0.tool_count)
unfolding count_if without_prefix
rows_agree_example = rows_agree reading casts trace made.0 parsed.0 (omega arith) made.1 parsed.1

aggregate_covers_example :
    (aggregates : List (ReportAggregate ℕ)) × (aggregate stats (parsed.0 ∷ parsed.0 ∷ [])
      ≡ some aggregates)
    × (count_if (is_for key) aggregates ≤ 1)
    × (traces_for key aggregates
        ≡ count_if (λ r. same_key key (key_of r)) (parsed.0 ∷ parsed.0 ∷ []))
aggregate_covers_example = aggregate_covers stats (λ values. refl) key (parsed.0 ∷ parsed.0 ∷ [])

-- With two agent spans the rows go by the first and the counters by the last.
abbrev retried : Trace ℕ
retried = record {
  trace_id = "tr-2";
  spans =
      span "Agent.Session" "1" none end
      ∷ span "invoke_agent a" "2" (some "1") end
      ∷ span "chat gpt" "3" (some "2") end
      ∷ span "invoke_agent b" "4" (some "1") end
      ∷ [];
}

retried_rows :
    (rows : List SpanRow) × (trace_rows casts retried ≡ some rows)
    × (count_if (counted_row "chat") rows ≡ 1)
unfolding trace_rows rows_under first_root each_row span_row make_row part_of dict_field lookup
    counted_of first_agent span_kind is_chat is_tool without_prefix same_text count_if
retried_rows = (_, refl, refl)

retried_record :
    (r : MlflowTraceRecord ℕ) × (parse_trace reading retried ≡ some (some r)) × (r.llm_count ≡ 0)
unfolding parse_trace parse_root last_root dict_field lookup children_of select first_model model_of
    new_record measure phases phase_step inner inner_step same_text chats usage_of tokens_of
    first_obs overhead fallbacks set_infra pod_field set_mcp set_a2a is_chat is_tool without_prefix
    observed_at add_after add_chat is_after
retried_record = (_, refl, refl)
