-- ===== src/Routes/Reports/Own.antt =====
-- routes/runs.py, `get_run_report`: whose run and whose sessions a report is of.
use autobench.Prelude.{
  String, true, Option, none, some, List, [], ◌∷◌, ◌≡◌, refl, ◌==◌, All, select, if◌then◌else◌,
  Bool-cases, inl, inr, eq_iff,
}
use autobench.Prelude.Dict.{get}
use autobench.Models.Config.{MlflowConfig}
use autobench.Models.Run.{RunState}
use autobench.Models.Report.{MlflowTraceRecord, RunReportResponse}
use autobench.Benchmarks.Definition.{BenchmarkDefinition}
use autobench.MlflowReport.Aggregate.{is_wanted, filter_by_sessions}
use autobench.Runner.Registry.{Runs, Entry}
use autobench.Runner.Registry
use autobench.Routes.Start.{Answer, ok, http_error, raised}
use autobench.Routes.Reports.{
  Traces, definition, ◌>>=◌, found_run, get_run, session_ids, since_of, collect_records, run_report,
  report_on, get_run_report,
}

-- The registry keeps the run under the id, with the tenant and the benchmark.
pub record IsTenants (name run_id iss : String) (runs : Runs) (run : RunState) : Type 0 where
  pub entry : Entry
  pub kept : get run_id runs ≡ some entry
  pub is_run : entry.state ≡ run
  pub owned : entry.iss ≡ iss
  pub of_benchmark : run.benchmark ≡ name

abbrev OnSome : (RunState → Type 0) → Option RunState → Type 0
OnSome P none = Unit
OnSome P (some run) = P run

of_entry :
    (name run_id iss : String) (runs : Runs) (found : Option Entry)
    → get run_id runs ≡ found
    → OnSome
        (IsTenants name run_id iss runs)
        (elim (elim found as (λ (o : Option Entry). Option RunState) [
          | none ↦ none
          | some entry ↦ if entry.iss == iss then some entry.state else none
        ])
          as (λ (o : Option RunState). Option RunState) [
            | none ↦ none
            | some run ↦ if run.benchmark == name then some run else none
          ])
of_entry name run_id iss runs none e = tt
of_entry name run_id iss runs (some entry) e = elim (Bool-cases (entry.iss == iss)) [
  | inr other ↦ rw other tt
  | inl own ↦ rw own (elim (Bool-cases (entry.state.benchmark == name)) [
    | inr other ↦ rw other tt
    | inl same ↦ rw same (record {
      entry = entry;
      kept = e;
      is_run = refl;
      owned = (eq_iff entry.iss iss).0 own;
      of_benchmark = (eq_iff entry.state.benchmark name).0 same;
    })
  ])
]

get_run-IsTenants :
    (name run_id iss : String) (runs : Runs)
    → OnSome (IsTenants name run_id iss runs) (Registry.get_run name run_id iss runs)
unfolding Registry.get_run Registry.get
get_run-IsTenants name run_id iss runs = of_entry name run_id iss runs (get run_id runs) refl

module _ {F : Type 0} where
  abbrev pub AllWanted : List String → List (MlflowTraceRecord F) → Type 0
  AllWanted sessions records = All (λ r. is_wanted sessions r.session_id ≡ true) records

  filter_by_sessions-AllWanted :
      (sessions : List String) (records : List (MlflowTraceRecord F))
      → AllWanted sessions (filter_by_sessions records sessions)
  unfolding filter_by_sessions select
  filter_by_sessions-AllWanted sessions [] = tt
  filter_by_sessions-AllWanted sessions (r ∷ records) =
      elim (Bool-cases (is_wanted sessions r.session_id)) [
        | inl e ↦ rw e (e, filter_by_sessions-AllWanted sessions records)
        | inr e ↦ rw e (filter_by_sessions-AllWanted sessions records)
      ]

  -- What a report shows of a run, to a tenant.
  pub record IsOwn (name run_id iss : String) (runs : Runs) (report : RunReportResponse F)
      : Type 0 where
    pub run : RunState
    pub of_tenant : IsTenants name run_id iss runs run
    pub shows_run : (report.run_id ≡ run.run_id) × (report.artifacts ≡ run.artifacts)
    pub own_sessions : AllWanted (session_ids run.results) report.records

  abbrev pub OnOk : (RunReportResponse F → Type 0) → Answer (RunReportResponse F) → Type 0
  OnOk P (ok report) = P report
  OnOk P (http_error _ _) = Unit
  OnOk P (raised _) = Unit

  run_report-IsOwn :
      {W : Type 0} (out : Traces W F) (cfg : MlflowConfig) (name run_id iss : String) (runs : Runs)
      (run : RunState) (answer : Answer (List (MlflowTraceRecord F)))
      → IsTenants name run_id iss runs run
      → OnOk (IsOwn name run_id iss runs) (answer >>= λ all. ok (run_report out cfg run all))
  unfolding run_report
  run_report-IsOwn out cfg name run_id iss runs run (ok all) h = record {
    run = run;
    of_tenant = h;
    shows_run = (refl, refl);
    own_sessions = filter_by_sessions-AllWanted (session_ids run.results) all;
  }
  run_report-IsOwn out cfg name run_id iss runs run (http_error _ _) h = tt
  run_report-IsOwn out cfg name run_id iss runs run (raised _) h = tt

  module _ {W : Type 0} (out : Traces W F) (cfg : MlflowConfig) (name run_id iss : String)
      (runs : Runs) where
    found_report :
        (w : W) (run : Option RunState)
        → OnSome (IsTenants name run_id iss runs) run
        → OnOk (IsOwn name run_id iss runs) (report_on out cfg (found_run run_id run) w).0
    unfolding found_run
    found_report w none h = tt
    found_report w (some run) h =
        run_report-IsOwn out cfg name run_id iss runs run
          (collect_records out cfg none (since_of out.ms run.started_at) w).0 h

    defined_report :
        (w : W) (defn : Answer BenchmarkDefinition)
        → OnOk
            (IsOwn name run_id iss runs)
            (report_on out cfg
              (defn >>= λ _. found_run run_id (Registry.get_run name run_id iss runs))
              w).0
    defined_report w (ok defn) =
        found_report w (Registry.get_run name run_id iss runs)
          (get_run-IsTenants name run_id iss runs)
    defined_report w (http_error _ _) = tt
    defined_report w (raised _) = tt

    -- A report that is given shows a run that the registry keeps under the id for the caller's own
    -- issuer and for the benchmark of the path, and each of its records is of a session of this run.
    pub get_run_report-IsOwn :
        (w : W)
        → OnOk (IsOwn name run_id iss runs) (get_run_report out cfg name run_id iss runs w).0
    unfolding get_run_report get_run
    get_run_report-IsOwn w = defined_report w (definition name)
