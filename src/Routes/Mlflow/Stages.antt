-- ===== src/Routes/Mlflow/Stages.antt =====
-- routes/mlflow.py, `mlflow_health`: what the probe calls, the texts of its stages and its answer. The
-- exporter, the reading back (`_read_probe_traces`), the clocks, the fresh session id and what reads an
-- exception of httpx are arguments.
use autobench.Prelude.{
  ℕ, String, ◌⧺◌, Bool, true, false, not, ◌&&◌, Option, none, some, List, [], ◌∷◌, is_some, truthy,
  if◌then◌else◌,
}
use autobench.Prelude.Text.{decimal}
use autobench.Prelude.Json.{Json, str, array, object, nil, cons, end, field, lookup}
use autobench.Prelude.Dict.{Dict}
use autobench.Prelude.Http.{Web, Request, Method}
use autobench.Models.Config.{MlflowConfig}
use autobench.Models.Health.{MlflowHealthStage, MlflowHealthResponse}
use autobench.MlflowReport.Spans.{Trace}
use autobench.MlflowReport.Download.{MlflowRequest}
use autobench.Runner.Tracing.{Exporter}
use autobench.Auth.{Checked, accepted, broken}
use autobench.Auth.Login.{Urls}
use autobench.Routes.Mlflow.{credential_mode, LogRecord, Capture, failed, failure, transient_note}

-- What the emission of the probe's spans does: the text of the exception that it raises, with its class,
-- and what the exporter logs.
pub record Emission : Type 0 where
  pub raising : Option String
  pub logged : List LogRecord

-- `client verify` is httpx with or without the check of certificates.
pub record Outside (W F : Type 0) : Type 0 where
  pub client : Bool → Web W
  pub urls : Urls
  pub emit : Exporter → String → W → Emission × W
  pub read_back : MlflowConfig → String → ℕ → W → Checked (List (Trace F)) × W
  pub monotonic : W → ℕ × W
  pub time_ms : W → ℕ × W
  pub uuid : W → String × W
  pub sleep : W → W
  -- the class of an `httpx.HTTPError` with a text
  pub class_of : String → String
  pub url_path : String → String
  pub repr : Json → String
  pub is_zero : String → Bool
  -- the clock's ticks in a second
  pub second : ℕ

abbrev pub passed : Option String → MlflowHealthStage
passed detail = record { is_ok = true; detail = detail; error = none }

abbrev pub stopped : String → MlflowHealthStage
stopped error = record { is_ok = false; detail = none; error = some error }

unfoldable pub respond :
    MlflowConfig
    → Bool
    → MlflowHealthStage
    → MlflowHealthStage
    → Option MlflowHealthStage
    → Option MlflowHealthStage
    → MlflowHealthResponse
respond cfg is_ok auth read write round_trip = record {
  is_ok = is_ok;
  tracking_url = cfg.tracking_url;
  credential_mode = credential_mode cfg;
  experiment_id = cfg.experiment_id;
  workspace = cfg.workspace;
  insecure_tls = cfg.insecure_tls;
  auth = auth;
  read = read;
  write = write;
  round_trip = round_trip;
}

abbrev workspace_header : Option String → Dict String
workspace_header none = []
workspace_header (some workspace) = ("x-mlflow-workspace", workspace) ∷ []

-- `_mlflow_get`
abbrev pub page_request : MlflowRequest → Request
page_request r = record {
  method = Method.get;
  url = r.url;
  headers =
      ("Authorization", r.authorization)
      ∷ ("Content-Type", "application/json")
      ∷ workspace_header r.workspace;
  params = [];
  form = [];
  body = none;
}

-- `len(body.get("traces", []))`, as far as it is asked for: whether it is 0.
unfoldable pub visible : Option Json → Checked Bool
visible (some (object body)) = elim (lookup "traces" body) [
  | none ↦ accepted false
  | some (array nil) ↦ accepted false
  | some (array (cons _ _)) ↦ accepted true
  | some (object end) ↦ accepted false
  | some (object (field _ _ _)) ↦ accepted true
  | some (str text) ↦ accepted (truthy text)
  | some _ ↦ broken "object has no len()"
]
visible (some _) = broken "object has no attribute 'get'"
visible none = broken "the body is not JSON"

-- How the reading back ends: whether the session is found, after how many attempts, with the last error.
pub data Trip (W : Type 0) : Type 0 where
  tried : Bool → ℕ → Option String → W → Trip W
  escaped : String → W → Trip W

abbrev or_text : Option String → String → String
or_text none other = other
or_text (some text) other = if truthy text then text else other

never_readable : String
never_readable =
    "the probe spans were exported without error but never became readable — MLflow accepted the POST and dropped the trace (check the experiment id and workspace the Service sends against the ones the collector writes)"

unfoldable pub trip_stage : Bool → ℕ → Option String → MlflowHealthStage
unfolding never_readable
trip_stage true attempts last_error =
    passed (some ("probe trace readable after " ⧺ (decimal attempts ⧺ " attempt(s)")))
trip_stage false attempts last_error = stopped (or_text last_error never_readable)

-- The write stage. The spans are exported just if there is no `emit_error`.
abbrev write_detail : Option String → String
write_detail none = "probe spans exported"
write_detail (some note) =
    if truthy note
    then "probe spans exported" ⧺ (" (after a retried failure: " ⧺ (note ⧺ ")"))
    else "probe spans exported"

abbrev first_error : Option String → Option String → Option String
first_error none captured = captured
first_error (some text) captured = if truthy text then some text else captured

unfoldable pub write_stage : Option String → Capture → MlflowHealthStage
write_stage emit_error captured =
    let is_ok = not (is_some emit_error) && not (failed captured) in
    record {
      is_ok = is_ok;
      detail = if is_ok then some (write_detail (transient_note captured)) else none;
      error = first_error emit_error (failure captured);
    }

abbrev pub unconfigured : MlflowHealthStage
unconfigured = stopped "MLflow tracking_url is not configured for this instance"

abbrev pub no_token : MlflowHealthStage
no_token = stopped "not attempted: no bearer token"

abbrev pub not_exported : MlflowHealthStage
not_exported = stopped "not attempted: the probe spans were not exported"
