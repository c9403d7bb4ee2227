-- ===== src/Routes/Execute/Terminal.antt =====
-- routes/runs.py, `_execute`: how a background run ends.
use autobench.Prelude.{ℕ, String, true, ◌≡◌, refl, ap, ◌∙◌, Option, none, some, is_some, arith}
use autobench.Prelude.Outcome.{Action, Outcome, return, raise, keep, ◌>>◌}
use autobench.Prelude.Outcome.Rules.{Catches, catches_rules}
use autobench.Models.Run.{RunRequest, RunStatus}
use autobench.Runner.Benchmark.{Live}
use autobench.Routes.Execute.{
  Wait, is_terminal, late_error, execute, guarded, backstop, hand_over, start, fail_with,
}

keep_state : {S A : Type 0} → (r : Outcome A) (t : Outcome (Unit {0}) × S) → (keep r t).1 ≡ t.1
keep_state r (return _, s) = refl
keep_state r (raise e, s) = refl

-- An action that returns hands its state on.
then_state :
    {S A : Type 0}
    → (m : Action S (Unit {0})) (n : Action S A) (s : S) → (m s).0 ≡ return tt
    → (m >> n) s ≡ n (m s).1
then_state m n s h = ground arith

module _ {W : Type 0} (time : W → ℕ × W) (fmt_g : ℕ → String) (req : RunRequest)
    (wait : Wait W) where
  backstop_lem :
      (s : Live W)
      → (is_terminal (backstop time fmt_g req s).1.run.status ≡ true)
        × ((backstop time fmt_g req s).0 ≡ return tt)
        × ((backstop time fmt_g req s).1.run.results ≡ s.run.results)
  unfolding backstop
  backstop_lem s = ground arith

  hand_over_state :
      (f : Action (Live W) (Unit {0})) (t : Live W)
      → (hand_over time fmt_g req (some f) t).1 ≡ (f t).1
  unfolding hand_over
  hand_over_state f t = ground arith

  hand_over-none : (t : Live W) → (hand_over time fmt_g req none t).1 ≡ t
  unfolding hand_over
  hand_over-none t = refl

  -- The run as `_execute` leaves it to the export.
  abbrev ended : Action (Live W) (Unit {0}) → Live W → Live W
  ended body s =
      (backstop time fmt_g req (guarded time fmt_g req wait body (start time fmt_g req s).1).1).1

  execute_state :
      (body f : Action (Live W) (Unit {0})) (s : Live W)
      → (execute time fmt_g req wait body (some f) s).1 ≡ (f (ended body s)).1
  unfolding execute start
  execute_state body f s =
      let t = (guarded time fmt_g req wait body (start time fmt_g req s).1).1 in
      keep_state _ _
      ∙ ap (λ r. r.1)
          (then_state (backstop time fmt_g req) (hand_over time fmt_g req (some f)) t
            (backstop_lem t).1)
      ∙ hand_over_state f (ended body s)

  -- Whatever the body, the waiting and the clock do, `_execute` calls `on_complete` with a run that
  -- has succeeded or failed, and nothing of the state changes after the call.
  pub execute_exports_terminal :
      (body on_complete : Action (Live W) (Unit {0})) (s : Live W)
      → (t : Live W) × (is_terminal t.run.status ≡ true)
        × ((execute time fmt_g req wait body (some on_complete) s).1 ≡ (on_complete t).1)
  execute_exports_terminal body f s =
      let t = (guarded time fmt_g req wait body (start time fmt_g req s).1).1 in
      (ended body s, (backstop_lem t).0, execute_state body f s)

  execute-none :
      (body : Action (Live W) (Unit {0})) (s : Live W)
      → (execute time fmt_g req wait body none s).1 ≡ ended body s
  unfolding execute start
  execute-none body s =
      let t = (guarded time fmt_g req wait body (start time fmt_g req s).1).1 in
      keep_state _ _
      ∙ ap (λ r. r.1)
          (then_state (backstop time fmt_g req) (hand_over time fmt_g req none) t
            (backstop_lem t).1)
      ∙ hand_over-none (ended body s)

  guarded_results :
      (body : Action (Live W) (Unit {0})) (s : Live W)
      → (guarded time fmt_g req wait body s).1.run.results ≡ (wait body s).1.run.results
  unfolding guarded
  guarded_results body s = ground arith

  -- Without an export: the run has succeeded or failed, and its results are those that it had when the waiting ended.
  pub execute_keeps_results :
      (body : Action (Live W) (Unit {0})) (s : Live W)
      → (is_terminal (execute time fmt_g req wait body none s).1.run.status ≡ true)
        × ((execute time fmt_g req wait body none s).1.run.results
            ≡ (wait body (start time fmt_g req s).1).1.run.results)
  execute_keeps_results body s =
      let t = (guarded time fmt_g req wait body (start time fmt_g req s).1).1 in
      rw (execute-none body s)
        ((backstop_lem t).0, (backstop_lem t).2 ∙ guarded_results body (start time fmt_g req s).1)

  -- A run that is not through when the waiting ends fails with the message of its timeout, which counts
  -- the results that it has, and keeps them.
  pub execute_late :
      (body : Action (Live W) (Unit {0})) (s : Live W)
      → (wait body (start time fmt_g req s).1).0 ≡ return none
      → ((execute time fmt_g req wait body none s).1.run.status ≡ RunStatus.failed)
        × ((execute time fmt_g req wait body none s).1.run.error
            ≡ some (late_error time fmt_g req (wait body (start time fmt_g req s).1).1.run))
        × (is_some (execute time fmt_g req wait body none s).1.run.finished_at ≡ true)
  unfolding guarded backstop
  execute_late body s h = rw (execute-none body s) (ground arith, ground arith, ground arith)

  start-Catches : Catches (start time fmt_g req)
  unfolding start
  start-Catches = record { at = λ s. tt }

  fail_with-Catches : (exc : String) → Catches (fail_with time fmt_g req exc)
  unfolding fail_with
  fail_with-Catches exc = record { at = λ s. tt }

  guarded-Catches : (body : Action (Live W) (Unit {0})) → Catches (guarded time fmt_g req wait body)
  unfolding guarded
  guarded-Catches body = search (catches_rules, fail_with-Catches)

  backstop-Catches : Catches (backstop time fmt_g req)
  backstop-Catches = record { at = λ s. rw (backstop_lem s).1 tt }

  hand_over-Catches :
      (on_complete : Option (Action (Live W) (Unit {0})))
      → Catches (hand_over time fmt_g req on_complete)
  unfolding hand_over
  hand_over-Catches none = search catches_rules
  hand_over-Catches (some f) = search catches_rules

  -- No `Exception` leaves `_execute`.
  pub execute-Catches :
      (body : Action (Live W) (Unit {0})) (on_complete : Option (Action (Live W) (Unit {0})))
      → Catches (execute time fmt_g req wait body on_complete)
  unfolding execute
  execute-Catches body on_complete =
      search (catches_rules, start-Catches, guarded-Catches, backstop-Catches, hand_over-Catches)
        depth 12
