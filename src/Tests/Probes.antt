-- ===== src/Tests/Probes.antt =====
-- A probe of MLflow that finds all well, and a report of a run.
use autobench.Prelude.{ℕ, ◌+◌, ◌*◌, true, false, none, some, [], ◌∷◌, ◌≡◌, refl, arith, is_some}
use autobench.Prelude.Dict.{get}
use autobench.Prelude.Json.{str, array, object, nil, end, field, lookup}
use autobench.Prelude.Http.{Response, answered}
use autobench.Models.Config.{InstanceConfig}
use autobench.Models.Run.{TaskResult}
use autobench.Models.Health.{MlflowHealthResponse}
use autobench.RuntimeConfig.{effective, effective_override}
use autobench.MlflowReport.Spans.{Span}
use autobench.Auth.{accepted}
use autobench.Routes.Start.{ok}
use autobench.Routes.Mlflow.{
  failed, capture_all, capture_record, contains_session, spans_contain, is_of_session,
}
use autobench.Routes.Mlflow.Stages.{Outside, visible, write_stage, trip_stage, respond}
use autobench.Routes.Mlflow.Health.{
  mlflow_health, probe, token_stage, round_trip_stage, read_back_stage, poll_until, polled,
  emit_probe_trace, read_stage,
}
use autobench.Routes.Mlflow.Health.Verdict.{IsProbed, mlflow_health-IsProbed}
use autobench.Routes.Mlflow.Health.Ends.{probe_ends}
use autobench.Auth.Login.{mlflow_token}
use autobench.Runner.Tracing.{build_tracer}
use autobench.Routes.Reports.{Traces, get_run_report}
use autobench.Routes.Reports.Own.{OnOk, IsOwn, get_run_report-IsOwn}
use autobench.Tests.Reports.{trace, reading, casts, stats}
use autobench.Tests.Samples.{run}
use autobench.Runner.Registry.{Runs}
use autobench.Tests.Configs.{own, mlflow}
use autobench.Tests.Accesses.{urls}

abbrev listing : Response
listing = record {
  status_code = 200;
  json = some (object (field "traces" (array nil) end));
  text = "{}";
  location = "";
}

abbrev root : Span ℕ
root = record {
  name = "Agent.Session";
  status_code = "OK";
  status_message = "";
  latency_ms = 150;
  start_time = "";
  parent_id = none;
  trace_id = "t";
  span_id = "s";
  attributes = field "metadata" (object (field "session_id" (str "mlflow-probe-7") end)) end;
}

-- The world is the clock; the trace is there on the first reading.
abbrev outside : Outside ℕ ℕ
outside = record {
  client = λ verify. record { send = λ request w. (answered listing, w); monotonic = λ w. (w, w) };
  urls = urls;
  emit = λ exporter session w. (record { raising = none; logged = (30, "retried") ∷ [] }, w);
  read_back =
      λ cfg token since w. (accepted (record { trace_id = "t"; spans = root ∷ [] } ∷ []), w);
  monotonic = λ w. (w, w);
  time_ms = λ w. (w, w);
  uuid = λ w. ("7", w);
  sleep = λ w. w + 1;
  class_of = λ text. "ConnectError";
  url_path = λ url. url;
  repr = λ value. "value";
  is_zero = λ numeral. false;
  second = 2;
}

abbrev probed : InstanceConfig
probed = record own { mlflow = record mlflow { bearer_token = some "sha256~x" } }

all_well :
    (response : MlflowHealthResponse) × (after : ℕ) × (mlflow_health outside probed [] 41 true 5
      ≡ some (ok response, after))
    × (response.is_ok ≡ true)
unfolding mlflow_health probe token_stage round_trip_stage read_back_stage poll_until polled
    emit_probe_trace effective effective_override get mlflow_token read_stage visible lookup
    write_stage build_tracer failed capture_all capture_record contains_session spans_contain
    is_of_session respond trip_stage
all_well = (_, _, refl, refl)

mlflow_health-IsProbed_example : IsProbed outside (effective probed.iss probed []).mlflow 5
mlflow_health-IsProbed_example =
    mlflow_health-IsProbed outside probed [] 41 5 all_well.1 all_well.0 all_well.2 all_well.3

probe_ends_example : is_some (probe outside probed.mlflow 41 true 5) ≡ true
probe_ends_example =
    probe_ends outside probed.mlflow (λ w. omega arith) (λ token since w. omega arith) 40 true 5
      (omega arith)

abbrev traces : Traces ℕ ℕ
traces = record {
  client = outside.client;
  urls = urls;
  download = λ cfg token experiment since w. (accepted (trace ∷ []), w);
  reading = reading;
  casts = casts;
  stats = stats;
  repr = λ value. "value";
  is_zero = λ numeral. false;
  ms = λ instant. instant * 1000;
}

abbrev passed_task : TaskResult
passed_task = record {
  task_id = "t1";
  session_id = some "s1";
  passed = true;
  latency_seconds = 3;
  error = none;
}

abbrev one_run : Runs
one_run =
    (
      run.run_id,
      record {
        state = record run { benchmark = "gsm8k"; results = passed_task ∷ [] };
        iss = "https://sso/realms/team1";
        task = none;
      },
    )
    ∷ []

get_run_report-IsOwn_example :
    OnOk
      (IsOwn "gsm8k" run.run_id probed.iss one_run)
      (get_run_report traces probed.mlflow "gsm8k" run.run_id probed.iss one_run 5).0
get_run_report-IsOwn_example =
    get_run_report-IsOwn traces probed.mlflow "gsm8k" run.run_id probed.iss one_run 5
