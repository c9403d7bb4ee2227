-- ===== src/Routes/Mlflow/Health/Ends.antt =====
-- routes/mlflow.py, `mlflow_health`: the loop of the reading back and its fuel.
use autobench.Prelude.{
  ℕ, zero, suc, ◌+◌, ◌*◌, ◌<◌, ◌≤◌, String, Bool, true, false, Option, none, some, List, ◌≡◌, refl,
  ltb, is_some, is_set, if◌then◌else◌, arith, ltb→lt,
}
use mathlib.Core.Option
use autobench.Prelude.Json.{Json}
use autobench.Models.Config.{MlflowConfig}
use autobench.Models.Health.{MlflowHealthStage}
use autobench.MlflowReport.Spans.{Trace}
use autobench.Auth.{Checked, accepted, rejected, unreachable, broken}
use autobench.Routes.Mlflow.{contains_session}
use autobench.Routes.Mlflow.Stages.{Outside, Trip, tried, escaped}
use autobench.Routes.Mlflow.Health.{
  polled, poll_until, trip_end, read_back_stage, round_trip_stage, token_stage, probe,
}

if-is_some :
    {A : Type 0} (test : Bool) (x y : Option A)
    → (test ≡ true → is_some x ≡ true)
    → is_some y ≡ true
    → is_some (if test then x else y) ≡ true
if-is_some true x y hx hy = hx refl
if-is_some false x y hx hy = hy

map-is_some :
    {A B : Type 0} (f : A → B) (o : Option A) → is_some o ≡ true → is_some (Option.map f o) ≡ true
map-is_some f none h = absurd (cc h)
map-is_some f (some a) h = refl

module _ {W F : Type 0} (out : Outside W F) (cfg : MlflowConfig)
    (steady : (w : W) → (out.monotonic w).0 ≤ (out.monotonic (out.monotonic w).1).0)
    (slept : (token : String) (since_ms : ℕ) (w : W)
      → (out.monotonic w).0
        < (out.monotonic
            (out.read_back cfg token since_ms (out.sleep (out.monotonic w).1)).1).0) where
  polled_ends :
      (session_id : String) (rest : Option String → W → Option (Trip W)) (attempts : ℕ)
      (last_error : Option String) (r : Checked (List (Trace F)) × W)
      → ((e : Option String) → is_some (rest e r.1) ≡ true)
      → is_some (polled out cfg session_id rest attempts last_error r) ≡ true
  unfolding polled
  polled_ends session_id rest attempts last_error (accepted traces, w) h =
      elim (contains_session out.is_zero traces session_id)
        as (λ o.
          is_some (elim o [
            | none ↦ some (escaped "object has no attribute 'get'" w)
            | some true ↦ some (tried true attempts last_error (out.monotonic w).1)
            | some false ↦ rest last_error w
          ])
          ≡ true) [ none ↦ refl | some true ↦ refl | some false ↦ h last_error ]
  polled_ends session_id rest attempts last_error (unreachable text, w) h = h _
  polled_ends session_id rest attempts last_error (rejected text, w) h = refl
  polled_ends session_id rest attempts last_error (broken text, w) h = refl

  poll_until_ends :
      (token session_id : String) (since_ms deadline fuel attempts : ℕ) (last_error : Option String)
      (w : W)
      → deadline ≤ (out.monotonic w).0 + fuel
      → is_some
          (poll_until out cfg token session_id since_ms deadline (suc fuel) attempts last_error w)
        ≡ true
  unfolding poll_until
  poll_until_ends token session_id since_ms deadline zero attempts last_error w h =
      if-is_some (ltb (out.monotonic w).0 deadline) _ _
        (λ e. absurd (omega (arith, ltb→lt (out.monotonic w).0 deadline e))) refl
  poll_until_ends token session_id since_ms deadline (suc fuel) attempts last_error w h =
      let (now, woken) = out.monotonic w in
      let r = out.read_back cfg token since_ms (out.sleep woken) in
      if-is_some (ltb now deadline) _ _
        (λ e.
          polled_ends session_id
            (poll_until out cfg token session_id since_ms deadline (suc fuel) (suc attempts))
            (suc attempts) last_error r
            (λ error.
              poll_until_ends token session_id since_ms deadline fuel (suc attempts) error r.1
                (omega (arith, slept token since_ms w))))
        refl

  read_back_ends :
      (fuel : ℕ) (token session_id : String) (since_ms : ℕ) (auth read write : MlflowHealthStage)
      (w : W)
      → 20 * out.second ≤ fuel
      → is_some (read_back_stage out cfg (suc fuel) token session_id since_ms auth read write w)
        ≡ true
  unfolding read_back_stage
  read_back_ends fuel token session_id since_ms auth read write w h =
      let (now, timed) = out.monotonic w in
      if-is_some write.is_ok _ _
        (λ e. map-is_some (trip_end out cfg auth read write) _ (
          poll_until_ends token session_id since_ms (now + 20 * out.second) fuel 0 none timed
            (omega (arith, steady w))))
        refl

  round_trip_ends :
      (fuel : ℕ) (token : String) (round_trip : Bool) (auth : MlflowHealthStage)
      (read : Checked MlflowHealthStage) (w : W)
      → 20 * out.second ≤ fuel
      → is_some (round_trip_stage out cfg (suc fuel) token round_trip auth read w) ≡ true
  unfolding round_trip_stage
  round_trip_ends fuel token false auth (accepted read) w h = refl
  round_trip_ends fuel token true auth (accepted read) w h =
      read_back_ends fuel token _ _ auth read _ _ h
  round_trip_ends fuel token round_trip auth (rejected text) w h = refl
  round_trip_ends fuel token round_trip auth (unreachable text) w h = refl
  round_trip_ends fuel token round_trip auth (broken text) w h = refl

  token_ends :
      (fuel : ℕ) (round_trip : Bool) (bearer : Checked Json × W)
      → 20 * out.second ≤ fuel
      → is_some (token_stage out cfg (suc fuel) round_trip bearer) ≡ true
  unfolding token_stage
  token_ends fuel round_trip (accepted bearer, w) h = round_trip_ends fuel _ round_trip _ _ _ h
  token_ends fuel round_trip (rejected text, w) h = refl
  token_ends fuel round_trip (unreachable text, w) h = refl
  token_ends fuel round_trip (broken text, w) h = refl

  -- If the clock never goes back and every round, with its sleep, takes it one tick further at least,
  -- then the probe ends, by an answer or an exception, within as many rounds as the twenty seconds of
  -- its deadline have ticks, and one.
  pub probe_ends :
      (fuel : ℕ) (round_trip : Bool) (w : W)
      → 20 * out.second ≤ fuel
      → is_some (probe out cfg (suc fuel) round_trip w) ≡ true
  unfolding probe
  probe_ends fuel round_trip w h =
      if-is_some (is_set cfg.tracking_url) _ _ (λ e. token_ends fuel round_trip _ h) refl
