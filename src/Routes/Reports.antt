-- ===== src/Routes/Reports.antt =====
-- routes/runs.py: the routes that answer with runs and their reports, and one reading for the export.
-- The download of the traces (`download_traces`, with the client for the certificates) is an argument,
-- with its exceptions told apart; the effective MLflow configuration of the caller's instance is one too.
pub mod Own
use autobench.Prelude.{
  ℕ, ◌-◌, ◌*◌, String, ◌⧺◌, Bool, true, false, not, Option, none, some, List, [], ◌∷◌, ◌==◌, select,
  length, take, is_set, eqb, if◌then◌else◌,
}
use autobench.Prelude.Dict.{get}
use autobench.Prelude.Json.{Json}
use autobench.Prelude.Http.{Web}
use autobench.Models.Config.{MlflowConfig}
use autobench.Models.Run.{RunState, TaskResult}
use autobench.Models.Report.{
  MlflowTraceRecord, ReportAggregate, RunReportResponse, ExperimentReportResponse,
}
use autobench.Benchmarks.Definition.{BenchmarkDefinition}
use autobench.Benchmarks.Catalog.{benchmarks}
use autobench.MlflowReport.Spans.{Trace}
use autobench.MlflowReport.Parse.{parse_traces}
use autobench.MlflowReport.Parse.Record.{Reading}
use autobench.MlflowReport.Rows.{Casts, SpanRow, span_rows}
use autobench.MlflowReport.Aggregate.{Stats, filter_by_sessions, filter_span_rows, aggregate}
use autobench.Runner.Registry.{Runs}
use autobench.Runner.Registry
use autobench.Runner.Tracing.{Exporter, build_tracer}
use autobench.Auth.{Checked, accepted, rejected, unreachable, broken}
use autobench.Auth.Login.{Urls, mlflow_token}
use autobench.Auth.Access.{shown}
use autobench.Routes.Start.{Answer, ok, http_error, raised}

-- `_definition`
unfoldable pub definition : String → Answer BenchmarkDefinition
definition name = elim (get name benchmarks) [
  | none ↦ http_error 404 ("unknown benchmark: " ⧺ name)
  | some defn ↦ ok defn
]

infixl 5 ◌>>=◌
abbrev pub ◌>>=◌ : {A B : Type 0} → Answer A → (A → Answer B) → Answer B
ok a >>= f = f a
http_error status detail >>= f = http_error status detail
raised text >>= f = raised text

-- The handler `list_runs`
unfoldable pub list_runs : String → String → Runs → Answer (List RunState)
list_runs name iss runs = definition name >>= λ defn. ok (Registry.list_runs name iss runs)

found_run : String → Option RunState → Answer RunState
found_run run_id none = http_error 404 ("unknown run: " ⧺ run_id)
found_run run_id (some run) = ok run

-- The handler `get_run`
unfoldable pub get_run : String → String → String → Runs → Answer RunState
unfolding found_run
get_run name run_id iss runs =
    definition name >>= λ defn. found_run run_id (Registry.get_run name run_id iss runs)

-- `[r.session_id for r in run.results]`; what is no text is no session of a record.
unfoldable pub session_ids : List TaskResult → List String
session_ids [] = []
session_ids (r ∷ results) = elim r.session_id [
  | none ↦ session_ids results
  | some session_id ↦ session_id ∷ session_ids results
]

-- `int(run.started_at * 1000) - 60_000 if run.started_at else None`; `ms` is the milliseconds of an
-- instant, which lies later than a minute after 1970.
abbrev pub since_of : (ℕ → ℕ) → Option ℕ → Option ℕ
since_of ms none = none
since_of ms (some started_at) = if eqb started_at 0 then none else some (ms started_at - 60000)

pub record Traces (W F : Type 0) : Type 0 where
  pub client : Bool → Web W
  pub urls : Urls
  pub download : MlflowConfig → String → Option String → Option ℕ → W → Checked (List (Trace F)) × W
  pub reading : Reading F
  pub casts : Casts F
  pub stats : Stats F
  pub repr : Json → String
  pub is_zero : String → Bool
  pub ms : ℕ → ℕ

module _ {W F : Type 0} (out : Traces W F) (cfg : MlflowConfig) where
  -- A token, and the traces that it is good for.
  unfoldable pub downloaded :
      Option String → Option ℕ → Checked Json × W → Checked (List (Trace F)) × W
  downloaded experiment_filter since_ms (accepted bearer, w) =
      out.download cfg (shown out.repr bearer) experiment_filter since_ms w
  downloaded experiment_filter since_ms (rejected text, w) = (rejected text, w)
  downloaded experiment_filter since_ms (unreachable text, w) = (unreachable text, w)
  downloaded experiment_filter since_ms (broken text, w) = (broken text, w)

  -- The body of the `try` of both readers.
  unfoldable pub read_traces : Option String → Option ℕ → W → Checked (List (Trace F)) × W
  read_traces experiment_filter since_ms w =
      downloaded experiment_filter since_ms
        (mlflow_token out.urls (out.client (not cfg.insecure_tls)) out.is_zero cfg w)

  parsed : Checked (List (Trace F)) × W → Answer (List (MlflowTraceRecord F)) × W
  parsed (accepted traces, w) = elim (parse_traces out.reading traces) [
    | none ↦ (raised "the traces cannot be parsed", w)
    | some records ↦ (ok records, w)
  ]
  parsed (rejected text, w) = (http_error 502 ("MLflow auth failed: " ⧺ text), w)
  parsed (unreachable text, w) = (http_error 502 ("MLflow request failed: " ⧺ text), w)
  parsed (broken text, w) = (raised text, w)

  -- `_collect_records`
  unfoldable pub collect_records :
      Option String → Option ℕ → W → Answer (List (MlflowTraceRecord F)) × W
  unfolding parsed
  collect_records experiment_filter since_ms w =
      if is_set cfg.tracking_url then parsed (read_traces experiment_filter since_ms w) else (
        http_error 409
            "MLflow not configured for this instance. Set tracking_url + client credentials via PUT /config (or in the instance file).",
        w,
      )

  unfoldable pub run_report : RunState → List (MlflowTraceRecord F) → RunReportResponse F
  run_report run all =
      let records = filter_by_sessions all (session_ids run.results) in
      record {
        run_id = run.run_id;
        benchmark = run.benchmark;
        experiment = run.experiment;
        trace_count = length records;
        records = records;
        artifacts = run.artifacts;
      }

  abbrev report_on : Answer RunState → W → Answer (RunReportResponse F) × W
  report_on (ok run) w =
      let (answer, after) = collect_records none (since_of out.ms run.started_at) w in
      (answer >>= λ all. ok (run_report run all), after)
  report_on (http_error status detail) w = (http_error status detail, w)
  report_on (raised text) w = (raised text, w)

  unfoldable pub get_run_report :
      String → String → String → Runs → W → Answer (RunReportResponse F) × W
  get_run_report name run_id iss runs w = report_on (get_run name run_id iss runs) w

  unfoldable pub experiment_report :
      String → String → F → List (MlflowTraceRecord F) → Answer (ExperimentReportResponse F)
  experiment_report name experiment window_h all =
      let records = select (λ r. r.benchmark_name == name) all in
      elim (aggregate out.stats records) [
        | none ↦ raised "the records cannot be rolled up"
        | some aggregates ↦ ok (record {
          benchmark = name;
          experiment = experiment;
          window_h = window_h;
          trace_count = length records;
          aggregates = aggregates;
          records = records;
        })
      ]

  -- `since_ms` is the start of the window of `window_h` hours.
  unfoldable pub get_experiment_report :
      String → String → F → ℕ → W → Answer (ExperimentReportResponse F) × W
  get_experiment_report name experiment window_h since_ms w = elim (definition name) [
    | ok defn ↦
        let (answer, after) = collect_records (some experiment) (some since_ms) w in
        (answer >>= experiment_report name experiment window_h, after)
    | http_error status detail ↦ (http_error status detail, w)
    | raised text ↦ (raised text, w)
  ]

  -- The span inventory; a failure to build it costs only itself.
  unfoldable pub inventory : ℕ → List String → List (Trace F) → List SpanRow
  inventory max_rows sessions traces = elim (span_rows out.casts traces) [
    | none ↦ []
    | some rows ↦ take max_rows (filter_span_rows rows sessions)
  ]

  -- What is fetched: the records and the span rows of the run's sessions, or nothing to wait for.
  abbrev pub Fetch : Type 0
  Fetch = Checked (Option (List (MlflowTraceRecord F) × List SpanRow))

  fetched : ℕ → List String → Checked (List (Trace F)) × W → Fetch × W
  fetched max_rows sessions (accepted traces, w) = elim (parse_traces out.reading traces) [
    | none ↦ (broken "the traces cannot be parsed", w)
    | some records ↦ (
      accepted (some (filter_by_sessions records sessions, inventory max_rows sessions traces)),
      w,
    )
  ]
  fetched max_rows sessions (rejected text, w) = (accepted none, w)
  fetched max_rows sessions (unreachable text, w) = (accepted none, w)
  fetched max_rows sessions (broken text, w) = (broken text, w)

  -- `_fetch_records_once`; `max_rows` is `span_report_max_rows`.
  unfoldable pub fetch_records_once : ℕ → RunState → W → Fetch × W
  unfolding fetched
  fetch_records_once max_rows run w =
      if is_set cfg.tracking_url
      then fetched max_rows (session_ids run.results)
          (read_traces none (since_of out.ms run.started_at) w)
      else (accepted none, w)

  tracer_of : Checked Json → Checked (Option Exporter)
  tracer_of (accepted bearer) = accepted (build_tracer cfg (shown out.repr bearer))
  tracer_of (rejected text) = accepted none
  tracer_of (unreachable text) = accepted none
  tracer_of (broken text) = broken text

  -- `_build_run_tracer`, which takes the client that checks certificates.
  unfoldable pub build_run_tracer : W → Checked (Option Exporter) × W
  unfolding tracer_of
  build_run_tracer w =
      let (bearer, after) = mlflow_token out.urls (out.client true) out.is_zero cfg w in
      if is_set cfg.tracking_url then (tracer_of bearer, after) else (accepted none, w)
