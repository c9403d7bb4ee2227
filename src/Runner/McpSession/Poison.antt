-- ===== src/Runner/McpSession/Poison.antt =====
-- mcp_session.py, `_call`: the calls on the streams of the shared session, and the poisoning.
use autobench.Prelude.{String, true, false, ◌≡◌, refl, List, [], ◌∷◌, arith, All}
use autobench.Prelude.Json.{Json}
use autobench.Prelude.Outcome.{Outcome, Raised, raise}
use autobench.Runner.McpSession.{
  Wait, finished, expired, Reap, reaped, unreaped, Met, Session, opened, poisoned_error, start_call,
  await_call, locked_call, call, life,
}

-- No cancellation of the waiting task falls into the wait of `reap_grace`.
abbrev pub IsUndisturbed : Met → Type 0
IsUndisturbed met = (e : Raised) → met.reap ≡ Reap.cancelled e → ⊥

-- Nothing is live on the streams of a session that is not poisoned, and no call has clashed.
abbrev IsExclusive : Session → Type 0
IsExclusive s = (s.poisoned ≡ false → s.live ≡ 0) × (s.clashed ≡ false)

module _ (url timeout_text : String) where
  await_call-IsExclusive :
      (tool : String) (wait : Wait) (reap : Reap) (s : Session)
      → ((e : Raised) → reap ≡ Reap.cancelled e → ⊥)
      → s.live ≡ 1
      → s.clashed ≡ false
      → IsExclusive (await_call url timeout_text tool wait reap s).1
  unfolding await_call
  await_call-IsExclusive tool (finished result) reap s calm one clear = ground arith
  await_call-IsExclusive tool (Wait.cancelled e) reap s calm one clear = ground arith
  await_call-IsExclusive tool expired reaped s calm one clear = ground arith
  await_call-IsExclusive tool expired unreaped s calm one clear = ground arith
  await_call-IsExclusive tool expired (Reap.cancelled e) s calm one clear = absurd (calm e refl)

  locked_call-IsExclusive :
      (tool : String) (met : Met) (s : Session)
      → IsUndisturbed met
      → IsExclusive s
      → IsExclusive (locked_call url timeout_text tool met s).1
  unfolding locked_call
  locked_call-IsExclusive tool met s calm h =
      ground (arith, await_call-IsExclusive tool met.wait met.reap (start_call s) calm)

  call-IsExclusive :
      (loads : String → Outcome Json) (tool : String) (met : Met) (s : Session)
      → IsUndisturbed met
      → IsExclusive s
      → IsExclusive (call url timeout_text loads tool met s).1
  unfolding call
  call-IsExclusive loads tool met s calm h =
      ground (arith, locked_call-IsExclusive tool met s calm h)

  life-IsExclusive :
      (loads : String → Outcome Json) (calls : List (String × Met)) (s : Session)
      → All (λ c. IsUndisturbed c.1) calls
      → IsExclusive s
      → IsExclusive (life url timeout_text loads calls s)
  unfolding life
  life-IsExclusive loads [] s calm h = h
  life-IsExclusive loads ((tool, met) ∷ calls) s calm h =
      life-IsExclusive loads calls _ calm.1 (call-IsExclusive loads tool met s calm.0 h)

  -- Over any sequence of tool calls of a fresh session, each of which may finish, raise, be
  -- cancelled by its task's deadline or exceed its own: if no cancellation comes while a call that
  -- exceeded its deadline is being reaped, no call is ever started while another is live.
  pub life_never_clashes :
      (loads : String → Outcome Json) (calls : List (String × Met))
      → All (λ c. IsUndisturbed c.1) calls
      → (life url timeout_text loads calls opened).clashed ≡ false
  life_never_clashes loads calls calm =
      (life-IsExclusive loads calls opened calm (λ _. refl, refl)).1

  clash_stays :
      (tool : String) (wait : Wait) (reap : Reap) (s : Session)
      → s.clashed ≡ true
      → (await_call url timeout_text tool wait reap s).1.clashed ≡ true
  unfolding await_call
  clash_stays tool (finished result) reap s h = h
  clash_stays tool (Wait.cancelled e) reap s h = h
  clash_stays tool expired reaped s h = h
  clash_stays tool expired unreaped s h = h
  clash_stays tool expired (Reap.cancelled e) s h = h

  -- A cancellation that comes while an expired call is being reaped leaves the session unpoisoned
  -- with the call live, so the next tool call, whichever it is and whatever it meets, is started
  -- beside it.
  pub reap_cancelled_clashes :
      (loads : String → Outcome Json) (tool tool' : String) (e : Raised) (met : Met)
      → (life url timeout_text loads
          ((tool, record { wait = expired; reap = Reap.cancelled e }) ∷ (tool', met) ∷ [])
          opened).clashed
        ≡ true
  unfolding life call
  reap_cancelled_clashes loads tool tool' e met = ground (
    arith,
    clash_stays tool' met.wait met.reap
        (start_call (record { poisoned = false; live = 1; clashed = false })) refl,
  )

  -- A poisoned session stays as it is, and every call of it fails at once, without reaching the
  -- streams.
  pub call_poisoned :
      (loads : String → Outcome Json) (tool : String) (met : Met) (s : Session)
      → s.poisoned ≡ true
      → call url timeout_text loads tool met s ≡ (raise (poisoned_error url timeout_text), s)
  unfolding call
  call_poisoned loads tool met s h = rw h
