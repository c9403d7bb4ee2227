-- ===== src/Routes/Mlflow/Health/Verdict.antt =====
-- routes/mlflow.py, `mlflow_health`: what a positive answer of the probe stands on.
use autobench.Prelude.{
  ℕ, zero, suc, ◌+◌, ◌-◌, ◌*◌, String, ◌⧺◌, Bool, true, false, ◌&&◌, Option, none, some, List, ◌≡◌,
  refl, ap, ltb, is_set, if◌then◌else◌, arith, Bool-cases, inl, inr,
}
use mathlib.Core.Option
use mathlib.Core.Path.{subst}
use autobench.Prelude.Json.{Json}
use autobench.Models.Config.{MlflowConfig, InstanceConfig}
use autobench.Models.Health.{MlflowHealthStage, MlflowHealthResponse}
use autobench.RuntimeConfig.{Store, effective}
use autobench.MlflowReport.Spans.{Trace}
use autobench.Runner.Tracing.{Exporter, build_tracer}
use autobench.Auth.{Checked, accepted, rejected, unreachable, broken}
use autobench.Auth.Login.{mlflow_token}
use autobench.Auth.Access.{shown}
use autobench.Routes.Start.{Answer, ok, http_error, raised}
use autobench.Routes.Mlflow.{
  Capture, capture_all, nothing_captured, failed, contains_session, credential_mode,
}
use autobench.Routes.Mlflow.Stages.{
  Outside, Trip, tried, escaped, respond, trip_stage, write_stage, page_request, passed,
}
use autobench.Routes.Mlflow.Health.{
  emit_probe_trace, emitted, polled, poll_until, trip_end, read_back_stage, round_trip_stage,
  token_stage, read_stage, browser, probe, mlflow_health, traces_path,
}
use autobench.MlflowReport.Download.{mlflow_request}

module _ {W F : Type 0} (out : Outside W F) (cfg : MlflowConfig) where
  -- The exporter took the spans of the session without an exception and without an error in its log.
  pub record IsExported (token session_id : String) : Type 0 where
    pub exporter : Exporter
    pub sender : W
    pub built : build_tracer cfg token ≡ some exporter
    pub quiet : (out.emit exporter session_id sender).0.raising ≡ none
    pub clean :
        failed (capture_all (out.emit exporter session_id sender).0.logged nothing_captured) ≡ false

  -- The session is in traces that the server gave back.
  pub record IsReadBack (token session_id : String) : Type 0 where
    pub since_ms : ℕ
    pub reader : W
    pub traces : List (Trace F)
    pub given : (out.read_back cfg token since_ms reader).0 ≡ accepted traces
    pub found : contains_session out.is_zero traces session_id ≡ some true

  abbrev WhenFound : String → String → Option (Trip W) → Type 0
  WhenFound token session_id (some (tried true _ _ _)) = IsReadBack token session_id
  WhenFound token session_id _ = Unit

  module _ (token session_id : String) (since_ms : ℕ) where
    polled_found :
        (rest : Option String → W → Option (Trip W)) (attempts : ℕ) (last_error : Option String)
        (reader : W) (r : Checked (List (Trace F)) × W)
        → out.read_back cfg token since_ms reader ≡ r
        → ((e : Option String) (w : W) → WhenFound token session_id (rest e w))
        → WhenFound token session_id (polled out cfg session_id rest attempts last_error r)
    unfolding polled
    polled_found rest attempts last_error reader (accepted traces, w) e h =
        go (contains_session out.is_zero traces session_id) refl
      where
        go :
            (o : Option Bool)
            → contains_session out.is_zero traces session_id ≡ o
            → WhenFound token session_id (elim o [
              | none ↦ some (escaped "object has no attribute 'get'" w)
              | some true ↦ some (tried true attempts last_error (out.monotonic w).1)
              | some false ↦ rest last_error w
            ])
        go none c = tt
        go (some true) c = record {
          since_ms = since_ms;
          reader = reader;
          traces = traces;
          given = ap (λ p. p.0) e;
          found = c;
        }
        go (some false) c = h last_error w
    polled_found rest attempts last_error reader (unreachable text, w) e h = h _ w
    polled_found rest attempts last_error reader (rejected text, w) e h = tt
    polled_found rest attempts last_error reader (broken text, w) e h = tt

    poll_until_found :
        (deadline fuel attempts : ℕ) (last_error : Option String) (w : W)
        → WhenFound token session_id
            (poll_until out cfg token session_id since_ms deadline fuel attempts last_error w)
    unfolding poll_until
    poll_until_found deadline zero attempts last_error w = tt
    poll_until_found deadline (suc fuel) attempts last_error w =
        let (now, woken) = out.monotonic w in
        let reader = out.sleep woken in
        let again =
          polled_found (poll_until out cfg token session_id since_ms deadline fuel (suc attempts))
            (suc attempts) last_error reader (out.read_back cfg token since_ms reader) refl
            (poll_until_found deadline fuel (suc attempts)) in
        elim (Bool-cases (ltb now deadline)) [ inl e ↦ rw e again | inr e ↦ rw e tt ]

  -- `G` stands behind every positive answer.
  abbrev Backs : Type 0 → Option (Answer MlflowHealthResponse × W) → Type 0
  Backs G (some (ok response, _)) = response.is_ok ≡ true → G
  Backs G _ = Unit

  if-Backs :
      (G : Type 0) (test : Bool) (x y : Option (Answer MlflowHealthResponse × W))
      → (test ≡ true → Backs G x)
      → Backs G y
      → Backs G (if test then x else y)
  if-Backs G true x y hx hy = hx refl
  if-Backs G false x y hx hy = hy

  -- What was done with one token, for one session.
  pub record IsSeen (token : String) : Type 0 where
    pub session_id : String
    pub exported : IsExported token session_id
    pub read_back : IsReadBack token session_id

  and_last : (a b c d : Bool) → a && b && c && d ≡ true → (c ≡ true) × (d ≡ true)
  and_last true true true d h = (refl, h)
  and_last true true false d h = absurd (ground arith)
  and_last true false c d h = absurd (ground arith)
  and_last false b c d h = absurd (ground arith)

  trip-Backs :
      (token session_id : String) (auth read write : MlflowHealthStage) (trip : Option (Trip W))
      → IsExported token session_id
      → WhenFound token session_id trip
      → Backs (IsSeen token) (Option.map (trip_end out cfg auth read write) trip)
  unfolding respond trip_stage
  trip-Backs token session_id auth read write none e h = tt
  trip-Backs token session_id auth read write (some (escaped _ w)) e h = tt
  trip-Backs token session_id auth read write (some (tried true attempts last_error w)) e h =
      λ positive. record { session_id = session_id; exported = e; read_back = h }
  trip-Backs token session_id auth read write (some (tried false attempts last_error w)) e h =
      λ positive. absurd (cc (and_last auth.is_ok read.is_ok write.is_ok false positive).1)

  write_stage_ok :
      (emit_error : Option String) (captured : Capture)
      → (write_stage emit_error captured).is_ok ≡ true
      → (emit_error ≡ none) × (failed captured ≡ false)
  unfolding write_stage
  write_stage_ok none captured h = (refl, ground arith)
  write_stage_ok (some text) captured h = absurd (ground arith)

  no_url : Option String × Capture
  no_url = (some "MLflow tracking_url is not configured", nothing_captured)

  emitted_lem :
      (token session_id : String) (w : W) (exporter : Option Exporter)
      → build_tracer cfg token ≡ exporter
      → (write_stage
          (emitted out cfg session_id exporter w).0.0
          (emitted out cfg session_id exporter w).0.1).is_ok
        ≡ true
      → IsExported token session_id
  unfolding emitted
  emitted_lem token session_id w none e h = absurd (cc (write_stage_ok _ _ h).0)
  emitted_lem token session_id w (some exporter) e h =
      let (quiet, clean) = write_stage_ok _ _ h in
      record { exporter = exporter; sender = w; built = e; quiet = quiet; clean = clean }

  read_back-Backs :
      (fuel : ℕ) (token session_id : String) (since_ms : ℕ) (auth read : MlflowHealthStage)
      (write : MlflowHealthStage) (w : W)
      → (write.is_ok ≡ true → IsExported token session_id)
      → Backs
          (IsSeen token)
          (read_back_stage out cfg fuel token session_id since_ms auth read write w)
  unfolding read_back_stage respond
  read_back-Backs fuel token session_id since_ms auth read write w h =
      let (now, timed) = out.monotonic w in
      let deadline = now + 20 * out.second in
      if-Backs (IsSeen token) write.is_ok _ _
        (λ e.
          trip-Backs token session_id auth read write
            (poll_until out cfg token session_id since_ms deadline fuel 0 none timed) (h e)
            (poll_until_found token session_id since_ms deadline fuel 0 none timed))
        (λ positive. absurd (cc positive))

  -- What was done with the token that the Service asked for.
  pub record IsProbed (start : W) : Type 0 where
    pub bearer : Json
    pub minted : (mlflow_token out.urls (browser out cfg) out.is_zero cfg start).0 ≡ accepted bearer
    pub seen : IsSeen (shown out.repr bearer)

  round_trip-Backs :
      (fuel : ℕ) (token : String) (auth : MlflowHealthStage) (read : Checked MlflowHealthStage)
      (w : W)
      → Backs (IsSeen token) (round_trip_stage out cfg fuel token true auth read w)
  unfolding round_trip_stage emit_probe_trace
  round_trip-Backs fuel token auth (accepted read) w =
      let (id, named_world) = out.uuid w in
      let (time, timed) = out.time_ms named_world in
      let session_id = "mlflow-probe-" ⧺ id in
      let exporter = build_tracer cfg token in
      let ((emit_error, captured), after) = emitted out cfg session_id exporter timed in
      read_back-Backs fuel token session_id (time - 60000) auth read
        (write_stage emit_error captured) after (emitted_lem token session_id timed exporter refl)
  round_trip-Backs fuel token auth (rejected text) w = tt
  round_trip-Backs fuel token auth (unreachable text) w = tt
  round_trip-Backs fuel token auth (broken text) w = tt

  seen-Backs :
      (start : W) (bearer : Json)
      → (mlflow_token out.urls (browser out cfg) out.is_zero cfg start).0 ≡ accepted bearer
      → (result : Option (Answer MlflowHealthResponse × W))
      → Backs (IsSeen (shown out.repr bearer)) result
      → Backs (IsProbed start) result
  seen-Backs start bearer e none h = tt
  seen-Backs start bearer e (some (ok response, w)) h =
      λ positive. record { bearer = bearer; minted = e; seen = h positive }
  seen-Backs start bearer e (some (http_error _ _, w)) h = tt
  seen-Backs start bearer e (some (raised _, w)) h = tt

  token-Backs :
      (fuel : ℕ) (start : W) (bearer : Checked Json × W)
      → mlflow_token out.urls (browser out cfg) out.is_zero cfg start ≡ bearer
      → Backs (IsProbed start) (token_stage out cfg fuel true bearer)
  unfolding token_stage respond
  token-Backs fuel start (accepted bearer, w) e =
      let token = shown out.repr bearer in
      let request = page_request (mlflow_request cfg token (traces_path out cfg)) in
      let (sent, after) = (browser out cfg).send request w in
      seen-Backs start bearer (ap (λ p. p.0) e)
        (round_trip_stage out cfg fuel token true
          (passed (some ("bearer obtained via " ⧺ credential_mode cfg)))
          (read_stage out cfg request.url sent) after)
        (round_trip-Backs fuel token _ (read_stage out cfg request.url sent) after)
  token-Backs fuel start (rejected text, w) e = λ positive. absurd (cc positive)
  token-Backs fuel start (unreachable text, w) e = λ positive. absurd (cc positive)
  token-Backs fuel start (broken text, w) e = tt

  probe-Backs : (fuel : ℕ) (w : W) → Backs (IsProbed w) (probe out cfg fuel true w)
  unfolding probe respond
  probe-Backs fuel w =
      if-Backs (IsProbed w) (is_set cfg.tracking_url) _ _
        (λ e. token-Backs fuel w (mlflow_token out.urls (browser out cfg) out.is_zero cfg w) refl)
        (λ positive. absurd (cc positive))

-- If the probe with a round trip answers that all is well, then a bearer was minted for the effective
-- configuration; for one session with this bearer there is a world in which the exporter raises nothing
-- and logs no error; and there is one in which the server gives back traces that have this very session.
pub mlflow_health-IsProbed :
    {W F : Type 0} (out : Outside W F) (instance_config : InstanceConfig) (store : Store) (fuel : ℕ)
    (w after : W) (response : MlflowHealthResponse)
    → mlflow_health out instance_config store fuel true w ≡ some (ok response, after)
    → response.is_ok ≡ true
    → IsProbed out (effective instance_config.iss instance_config store).mlflow w
unfolding mlflow_health
mlflow_health-IsProbed out instance_config store fuel w after response h =
    let cfg = (effective instance_config.iss instance_config store).mlflow in
    subst (Backs out cfg (IsProbed out cfg w)) h (probe-Backs out cfg fuel w)
