-- ===== src/MlflowReport/Aggregate.antt =====
-- mlflow_report.py, the report helpers: the filters by session, and `aggregate`. The operations on
-- floats and `sorted` are arguments.
pub mod Groups
use autobench.Prelude.{
  ℕ, zero, suc, ◌+◌, ◌-◌, min, String, Bool, true, false, ◌&&◌, Option, none, some, List, [], ◌∷◌,
  ◌++◌, ◌==◌, map, select, any, count_if, length, is_some, truthy, eqb, if◌then◌else◌,
}
use autobench.Models.Report.{MlflowTraceRecord, ReportAggregate}
use autobench.Prelude.Json.{Json, str}
use autobench.MlflowReport.Rows.{SpanRow}

-- `x in {sid for sid in session_ids if sid}`
unfoldable pub is_wanted : List String → String → Bool
is_wanted session_ids x = any (λ sid. sid == x) (select truthy session_ids)

unfoldable pub filter_by_sessions :
    {F : Type 0} → List (MlflowTraceRecord F) → List String → List (MlflowTraceRecord F)
filter_by_sessions records session_ids = select (λ r. is_wanted session_ids r.session_id) records

-- A row's session; what is no text is no session.
abbrev pub is_wanted_json : List String → Json → Bool
is_wanted_json session_ids (str x) = is_wanted session_ids x
is_wanted_json session_ids _ = false

unfoldable pub filter_span_rows : List SpanRow → List String → List SpanRow
filter_span_rows rows session_ids = select (λ r. is_wanted_json session_ids r.session_id) rows

-- `sorted`, `int(n * p)`, `sum(values) / len(values)` and `passed / n`
pub record Stats (F : Type 0) : Type 0 where
  pub zero_f : F
  pub sorted : List F → List F
  pub scaled : ℕ → F → ℕ
  pub mean : List F → F
  pub rate : ℕ → ℕ → F
  pub half : F
  pub most : F

-- `s[i]`; none is an IndexError.
unfoldable pub get_elem? : {A : Type 0} → List A → ℕ → Option A
get_elem? [] i = none
get_elem? (x ∷ xs) zero = some x
get_elem? (x ∷ xs) (suc i) = get_elem? xs i

-- The attributes that records are grouped by.
pub record GroupKey : Type 0 where
  pub agent_name : String
  pub benchmark_name : String
  pub model : String
  pub num_parallel : ℕ

unfoldable pub same_key : GroupKey → GroupKey → Bool
same_key a b =
    a.agent_name == b.agent_name
    && a.benchmark_name == b.benchmark_name
    && a.model == b.model
    && eqb a.num_parallel b.num_parallel

abbrev pub Groups : Type 0 → Type 0
Groups F = List (GroupKey × List (MlflowTraceRecord F))

module _ {F : Type 0} where
  unfoldable pub key_of : MlflowTraceRecord F → GroupKey
  key_of r = record {
    agent_name = r.agent_name;
    benchmark_name = r.benchmark_name;
    model = r.model;
    num_parallel = r.num_parallel;
  }

  -- `groups.setdefault(key, []).append(r)`
  unfoldable pub add_group : GroupKey → MlflowTraceRecord F → Groups F → Groups F
  add_group key r [] = (key, r ∷ []) ∷ []
  add_group key r ((k, rs) ∷ groups) =
      let others = add_group key r groups in
      if same_key k key then (k, rs ++ r ∷ []) ∷ groups else (k, rs) ∷ others

  unfoldable pub group : Groups F → List (MlflowTraceRecord F) → Groups F
  group groups [] = groups
  group groups (r ∷ records) = group (add_group (key_of r) r groups) records

module _ {F : Type 0} (stats : Stats F) where
  -- `_percentile`
  unfoldable pub percentile : List F → F → Option F
  percentile [] p = some stats.zero_f
  percentile (v ∷ values) p =
      let s = stats.sorted (v ∷ values) in
      get_elem? s (min (stats.scaled (length s) p) (length s - 1))

  -- `_avg`
  unfoldable pub avg : List F → F
  avg [] = stats.zero_f
  avg (v ∷ values) = stats.mean (v ∷ values)

  abbrev has_passed : MlflowTraceRecord F → Bool
  has_passed r = elim r.evaluation_result [ none ↦ false | some passed ↦ passed ]

  abbrev pass_rate : List (MlflowTraceRecord F) → F
  pass_rate [] = stats.zero_f
  pass_rate (r ∷ evaluated) =
      stats.rate (count_if has_passed (r ∷ evaluated)) (length (r ∷ evaluated))

  -- The rollup of one group, with the two percentiles of its latencies.
  unfoldable pub make_rollup : GroupKey → List (MlflowTraceRecord F) → F → F → ReportAggregate F
  make_rollup key recs p50 p95 = record {
    agent_name = key.agent_name;
    benchmark_name = key.benchmark_name;
    model = key.model;
    num_parallel = key.num_parallel;
    trace_count = length recs;
    eval_pass_rate = pass_rate (select (λ r. is_some r.evaluation_result) recs);
    total_latency_avg_s = avg (map (λ r. r.total_latency_s) recs);
    total_latency_p50_s = p50;
    total_latency_p95_s = p95;
  }

  unfoldable pub roll_up : GroupKey → List (MlflowTraceRecord F) → Option (ReportAggregate F)
  roll_up key recs =
      let lat = map (λ r. r.total_latency_s) recs in
      elim (percentile lat stats.half) [
        | none ↦ none
        | some p50 ↦ elim (percentile lat stats.most) [
          | none ↦ none
          | some p95 ↦ some (make_rollup key recs p50 p95)
        ]
      ]

  unfoldable pub roll_ups : Groups F → Option (List (ReportAggregate F))
  roll_ups [] = some []
  roll_ups ((key, recs) ∷ groups) = elim (roll_up key recs) [
    | none ↦ none
    | some a ↦ elim (roll_ups groups) [ none ↦ none | some rest ↦ some (a ∷ rest) ]
  ]

  unfoldable pub aggregate : List (MlflowTraceRecord F) → Option (List (ReportAggregate F))
  aggregate records = roll_ups (group [] records)
