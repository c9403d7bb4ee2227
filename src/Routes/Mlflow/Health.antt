-- ===== src/Routes/Mlflow/Health.antt =====
-- routes/mlflow.py, `mlflow_health`: one stage of the probe after the other. `fuel` bounds the rounds of
-- the reading back.
pub mod Verdict
pub mod Ends
use autobench.Prelude.{
  ℕ, zero, suc, ◌+◌, ◌-◌, ◌*◌, String, ◌⧺◌, Bool, true, false, not, ◌&&◌, Option, none, some, List,
  [], ◌∷◌, ltb, is_some, is_set, truthy, if◌then◌else◌,
}
use mathlib.Core.Option
use autobench.Prelude.Text.{decimal}
use autobench.Prelude.Json.{
  Json, Items, Fields, null, bool, number, str, array, object, nil, cons, end, field, lookup,
}
use autobench.Prelude.Dict.{Dict}
use autobench.Prelude.Http.{Web, Request, Method, Response, Sent, answered, unsent, is_success}
use autobench.Models.Config.{MlflowConfig, InstanceConfig}
use autobench.Models.Health.{MlflowHealthStage, MlflowHealthResponse}
use autobench.RuntimeConfig.{Store, effective}
use autobench.MlflowReport.Spans.{Trace}
use autobench.MlflowReport.Download.{MlflowRequest, mlflow_request}
use autobench.Runner.Tracing.{Exporter, build_tracer}
use autobench.Auth.{Checked, accepted, rejected, unreachable, broken}
use autobench.Auth.Login.{Urls, mlflow_token}
use autobench.Auth.Access.{shown}
use autobench.Routes.Start.{Answer, ok, raised}
use autobench.Routes.Mlflow.{
  credential_mode, LogRecord, Capture, capture_all, nothing_captured, failed, failure,
  transient_note, contains_session,
}
use autobench.Routes.Mlflow.Stages.{
  Outside, passed, stopped, respond, page_request, visible, Trip, trip_stage, write_stage,
  unconfigured, no_token, not_exported, tried, escaped,
}

module _ {W F : Type 0} (out : Outside W F) (cfg : MlflowConfig) where
  -- A text of an `httpx.HTTPError` with its class before it.
  named : String → String
  named text = out.class_of text ⧺ (": " ⧺ text)

  -- `_mlflow_client`
  unfoldable pub browser : Web W
  browser = out.client (not cfg.insecure_tls)

  traces_path : String
  traces_path = "/api/2.0/mlflow/traces?experiment_ids=" ⧺ (cfg.experiment_id ⧺ "&max_results=1")

  read_detail : Bool → String
  read_detail is_visible =
      "traces API answered; experiment "
      ⧺ (cfg.experiment_id
          ⧺ (if is_visible
              then " is non-empty"
              else " is empty (which is fine for a fresh install)"))

  page_stage : Checked Bool → Checked MlflowHealthStage
  unfolding read_detail
  page_stage (accepted is_visible) = accepted (passed (some (read_detail is_visible)))
  page_stage (rejected text) = rejected text
  page_stage (unreachable text) = unreachable text
  page_stage (broken text) = broken text

  -- The read stage, of what `_read_one_trace_page` gives or raises.
  unfoldable pub read_stage : String → Sent → Checked MlflowHealthStage
  unfolding named page_stage
  read_stage url (unsent text) = accepted (stopped (named text))
  read_stage url (answered response) =
      if is_success response.status_code
      then page_stage (visible response.json)
      else accepted
          (stopped ("HTTP " ⧺ (decimal response.status_code ⧺ (" from " ⧺ out.url_path url))))

  -- `_emit_probe_trace` and the capture around it: `emit_error`, and what is captured.
  emitted : String → Option Exporter → W → (Option String × Capture) × W
  emitted session_id none w = ((some "MLflow tracking_url is not configured", nothing_captured), w)
  emitted session_id (some exporter) w =
      let (emission, after) = out.emit exporter session_id w in
      ((emission.raising, capture_all emission.logged nothing_captured), after)

  unfoldable pub emit_probe_trace : String → String → W → (Option String × Capture) × W
  unfolding emitted
  emit_probe_trace token session_id w = emitted session_id (build_tracer cfg token) w

  -- What is done with one reading; `rest` is the loop from there on.
  unfoldable pub polled :
      String
      → (Option String → W → Option (Trip W))
      → ℕ
      → Option String
      → Checked (List (Trace F)) × W
      → Option (Trip W)
  unfolding named
  polled session_id rest attempts last_error (accepted traces, w) =
      elim (contains_session out.is_zero traces session_id) [
        | none ↦ some (escaped "object has no attribute 'get'" w)
        | some true ↦ some (tried true attempts last_error (out.monotonic w).1)
        | some false ↦ rest last_error w
      ]
  polled session_id rest attempts last_error (unreachable text, w) = rest (some (named text)) w
  polled session_id rest attempts last_error (rejected text, w) = some (escaped text w)
  polled session_id rest attempts last_error (broken text, w) = some (escaped text w)

  -- The loop of the reading back; none is that the fuel has run out.
  unfoldable pub poll_until : String → String → ℕ → ℕ → ℕ → ℕ → Option String → W → Option (Trip W)
  poll_until token session_id since_ms deadline zero attempts last_error w = none
  poll_until token session_id since_ms deadline (suc fuel) attempts last_error w =
      let (now, woken) = out.monotonic w in
      let again =
        polled session_id (poll_until token session_id since_ms deadline fuel (suc attempts))
          (suc attempts) last_error (out.read_back cfg token since_ms (out.sleep woken)) in
      if ltb now deadline then again else some (tried false attempts last_error woken)

  abbrev trip_end :
      MlflowHealthStage
      → MlflowHealthStage
      → MlflowHealthStage
      → Trip W
      → Answer MlflowHealthResponse × W
  trip_end auth read write (tried found attempts last_error w) =
      let trip = trip_stage found attempts last_error in
      (
        ok (
            respond cfg (auth.is_ok && read.is_ok && write.is_ok && trip.is_ok) auth read
              (some write) (some trip)),
        w,
      )
  trip_end auth read write (escaped text w) = (raised text, w)

  -- After the write stage.
  unfoldable pub read_back_stage :
      ℕ
      → String
      → String
      → ℕ
      → MlflowHealthStage
      → MlflowHealthStage
      → MlflowHealthStage
      → W
      → Option (Answer MlflowHealthResponse × W)
  read_back_stage fuel token session_id since_ms auth read write w =
      let (now, timed) = out.monotonic w in
      let trip = poll_until token session_id since_ms (now + 20 * out.second) fuel 0 none timed in
      if write.is_ok
      then Option.map (trip_end auth read write) trip
      else some (ok (respond cfg false auth read (some write) (some not_exported)), w)

  -- After the read stage.
  unfoldable pub round_trip_stage :
      ℕ
      → String
      → Bool
      → MlflowHealthStage
      → Checked MlflowHealthStage
      → W
      → Option (Answer MlflowHealthResponse × W)
  round_trip_stage fuel token round_trip auth (accepted read) w =
      if round_trip
      then (let (id, named_world) = out.uuid w in
          let (time, timed) = out.time_ms named_world in
          let session_id = "mlflow-probe-" ⧺ id in
          let ((emit_error, captured), after) = emit_probe_trace token session_id timed in
          read_back_stage fuel token session_id (time - 60000) auth read
            (write_stage emit_error captured) after)
      else some (ok (respond cfg (auth.is_ok && read.is_ok) auth read none none), w)
  round_trip_stage fuel token round_trip auth (rejected text) w = some (raised text, w)
  round_trip_stage fuel token round_trip auth (unreachable text) w = some (raised text, w)
  round_trip_stage fuel token round_trip auth (broken text) w = some (raised text, w)

  -- The answer without a token.
  abbrev refuse_token : String → W → Option (Answer MlflowHealthResponse × W)
  refuse_token text w = some (ok (respond cfg false (stopped text) no_token none none), w)

  -- After the auth stage.
  unfoldable pub token_stage :
      ℕ → Bool → Checked Json × W → Option (Answer MlflowHealthResponse × W)
  unfolding browser traces_path named
  token_stage fuel round_trip (accepted bearer, w) =
      let token = shown out.repr bearer in
      let request = page_request (mlflow_request cfg token traces_path) in
      let (sent, after) = browser.send request w in
      round_trip_stage fuel token round_trip
        (passed (some ("bearer obtained via " ⧺ credential_mode cfg))) (read_stage request.url sent)
        after
  token_stage fuel round_trip (rejected text, w) = refuse_token ("MLflowAuthError: " ⧺ text) w
  token_stage fuel round_trip (unreachable text, w) = refuse_token (named text) w
  token_stage fuel round_trip (broken text, w) = some (raised text, w)

  unfoldable pub probe : ℕ → Bool → W → Option (Answer MlflowHealthResponse × W)
  unfolding browser
  probe fuel round_trip w =
      if is_set cfg.tracking_url
      then token_stage fuel round_trip (mlflow_token out.urls browser out.is_zero cfg w)
      else some (ok (respond cfg false unconfigured unconfigured none none), w)

unfoldable pub mlflow_health :
    {W F : Type 0}
    → Outside W F
    → InstanceConfig
    → Store
    → ℕ
    → Bool
    → W
    → Option (Answer MlflowHealthResponse × W)
mlflow_health out instance_config store fuel round_trip w =
    probe out (effective instance_config.iss instance_config store).mlflow fuel round_trip w
