-- ===== src/Runner/A2aAgent/Retry.antt =====
-- The retries of `send_prompt`: how many, of which failures, and within which time.
use autobench.Prelude.{
  ℕ, zero, suc, ◌+◌, ◌-◌, ◌≤◌, String, Bool, true, false, ◌≡◌, refl, sym, ◌∙◌, Bool-cases, ◌⊎◌, inl,
  inr, Option, none, some, List, [], ◌∷◌, length, All, arith, ltb, if◌then◌else◌,
}
use autobench.Runner.A2aAgent.{
  Failure, Reply, answered, failed, stopped, Client, Attempt, is_transport_error, judge, gate,
  after_sleep, turn, send_prompt,
}

-- The attempt failed at the transport.
abbrev pub IsRetried : Attempt → Type 0
IsRetried a = (exc : Failure) × (a.reply ≡ failed exc) × (is_transport_error exc ≡ true)

-- The attempt ends its share by the deadline.
abbrev pub IsWithin : ℕ → Attempt → Type 0
IsWithin deadline a = a.began + a.share ≤ deadline

module _ (attempt : ℕ → ℕ → ℕ → Reply × ℕ) (sleep : ℕ → Option String × ℕ) where
  -- The reply is the cancellation of the sleep that follows the attempt, which is to be retried.
  abbrev pub Cancelled : Attempt → Reply → Type 0
  Cancelled a r =
      IsRetried a
      × ((repr : String) × (r ≡ stopped repr)
          × ((sleep (attempt a.number a.share a.began).1).0 ≡ some repr))

  -- Each attempt but the last failed at the transport, and the last one's reply is the turn's,
  -- unless the turn is cancelled in the sleep after it.
  abbrev pub Settles : List Attempt → Reply → Type 0
  Settles [] r = ⊥
  Settles (a ∷ rest) r =
      ((rest ≡ []) × ((a.reply ≡ r) ⊎ Cancelled a r)) ⊎ (IsRetried a × Settles rest r)

  -- What follows an attempt that has failed with `exc`: no further attempt, and `exc` or the
  -- cancellation is raised; or the further attempts settle.
  abbrev Ends : Attempt → Failure → Reply × List Attempt → Type 0
  Ends made exc t =
      ((t.1 ≡ []) × ((t.0 ≡ failed exc) ⊎ (IsRetried made → Cancelled made t.0))) ⊎ Settles t.1 t.0

  Settles-if :
      (stop : Bool) (made : Attempt) (exc : Failure) (rest : Reply × List Attempt)
      → made.reply ≡ failed exc
      → (stop ≡ false → IsRetried made)
      → Ends made exc rest
      → Settles
          (if◌then◌else◌ {A = Reply × List Attempt} stop
            (failed exc, made ∷ [])
            (rest.0, made ∷ rest.1)).1
          (if◌then◌else◌ {A = Reply × List Attempt} stop
            (failed exc, made ∷ [])
            (rest.0, made ∷ rest.1)).0
  Settles-if true made exc rest e h k = inl (refl, inl e)
  Settles-if false made exc rest e h (inl (none_made, inl same)) =
      inl (none_made, inl (e ∙ sym same))
  Settles-if false made exc rest e h (inl (none_made, inr cancelled)) =
      inl (none_made, inr (cancelled (h refl)))
  Settles-if false made exc rest e h (inr settled) = inr (h refl, settled)

All-if :
    (P : Attempt → Type 0) (stop : Bool) (made : Attempt) (reply : Reply)
    (rest : Reply × List Attempt)
    → P made
    → All P rest.1
    → All P
        (if◌then◌else◌ {A = Reply × List Attempt} stop (reply, made ∷ []) (rest.0, made ∷ rest.1)).1
All-if P true made reply rest h k = (h, tt)
All-if P false made reply rest h k = (h, k)

abbrev pub retries : List Attempt → List Attempt
retries [] = []
retries (a ∷ rest) = rest

retries-if :
    (P : Attempt → Type 0) (stop : Bool) (made : Attempt) (reply : Reply)
    (rest : Reply × List Attempt)
    → All P rest.1
    → All P (
        retries
          (if◌then◌else◌ {A = Reply × List Attempt} stop
            (reply, made ∷ [])
            (rest.0, made ∷ rest.1)).1)
retries-if P true made reply rest k = tt
retries-if P false made reply rest k = k

module _ (c : Client) (attempt : ℕ → ℕ → ℕ → Reply × ℕ) (sleep : ℕ → Option String × ℕ) where
  after_sleep_lem :
      (P : Reply × List Attempt → Type 0) (slept : Option String × ℕ)
      (go_on : ℕ → Reply × List Attempt)
      → ((repr : String) → slept.0 ≡ some repr → P (stopped repr, []))
      → ((now : ℕ) → P (go_on now))
      → P (after_sleep c attempt sleep slept go_on)
  unfolding after_sleep
  after_sleep_lem P (none, now) go_on h k = k now
  after_sleep_lem P (some repr, now) go_on h k = h repr refl

  All-after_sleep :
      (P : Attempt → Type 0) (slept : Option String × ℕ) (go_on : ℕ → Reply × List Attempt)
      → ((now : ℕ) → All P (go_on now).1)
      → All P (after_sleep c attempt sleep slept go_on).1
  All-after_sleep P slept go_on = after_sleep_lem (λ t. All P t.1) slept go_on (λ repr e. tt)

  length-judge :
      (made : Attempt) (retry : Failure → Reply × List Attempt) (reply : Reply) (left : ℕ)
      → ((exc : Failure) → length (retry exc).1 ≤ left)
      → length (judge c attempt sleep made retry reply).1 ≤ suc left
  unfolding judge
  length-judge made retry (answered text) left h = omega arith
  length-judge made retry (failed exc) left h = ground (arith, h exc)
  length-judge made retry (stopped repr) left h = omega arith

  length-gate :
      (last_exc : Option Failure) (remaining : ℕ) (go_on : Reply × List Attempt) (n : ℕ)
      → length go_on.1 ≤ n
      → length (gate c attempt sleep last_exc remaining go_on).1 ≤ n
  unfolding gate
  length-gate none remaining go_on n h = h
  length-gate (some exc) remaining go_on n h = ground arith

  length-turn :
      (left number deadline : ℕ) (last_exc : Option Failure) (now : ℕ)
      → length (turn c attempt sleep left number deadline last_exc now).1 ≤ left
  unfolding turn
  length-turn zero number deadline none now = omega arith
  length-turn zero number deadline (some exc) now = omega arith
  length-turn (suc left) number deadline last_exc now = length-gate last_exc _ _ (suc left) (
      length-judge _ _ _ left λ exc.
        after_sleep_lem (λ t. length t.1 ≤ left) _ _ (λ repr e. omega arith)
          (length-turn left (number + 1) deadline (some exc)))

  Ends-gate :
      (made : Attempt) (exc : Failure) (remaining : ℕ) (go_on : Reply × List Attempt)
      → Settles attempt sleep go_on.1 go_on.0
      → Ends attempt sleep made exc (gate c attempt sleep (some exc) remaining go_on)
  unfolding gate
  Ends-gate made exc remaining go_on h = elim (Bool-cases (ltb remaining c.min_budget)) [
    | inl late ↦ rw late (inl (refl, inl refl))
    | inr early ↦ rw early (inr h)
  ]

  Settles-judge :
      (made : Attempt) (retry : Failure → Reply × List Attempt) (reply : Reply)
      → made.reply ≡ reply
      → ((exc : Failure) → Ends attempt sleep made exc (retry exc))
      → Settles attempt sleep
          (judge c attempt sleep made retry reply).1
          (judge c attempt sleep made retry reply).0
  unfolding judge
  Settles-judge made retry (answered text) e h = inl (refl, inl e)
  Settles-judge made retry (failed exc) e h =
      Settles-if attempt sleep _ made exc (retry exc) e (λ go_on. (exc, e, ground arith)) (h exc)
  Settles-judge made retry (stopped repr) e h = inl (refl, inl e)

  Ends-sleep :
      (made : Attempt) (exc : Failure) (go_on : ℕ → Reply × List Attempt)
      → ((now : ℕ) → Ends attempt sleep made exc (go_on now))
      → Ends attempt sleep made exc
          (after_sleep c attempt sleep (sleep (attempt made.number made.share made.began).1) go_on)
  Ends-sleep made exc go_on =
      after_sleep_lem (Ends attempt sleep made exc)
        (sleep (attempt made.number made.share made.began).1) go_on
        (λ repr e. inl (refl, inr (λ retried. (retried, (repr, refl, e)))))

  Ends-turn :
      (left number deadline : ℕ) (made : Attempt) (exc : Failure) (now : ℕ)
      → Ends attempt sleep made exc (turn c attempt sleep left number deadline (some exc) now)
  unfolding turn
  Ends-turn zero number deadline made exc now = inl (refl, inl refl)
  Ends-turn (suc left) number deadline made exc now = Ends-gate made exc _ _ (
      Settles-judge _ _ _ refl
        λ exc'. Ends-sleep _ exc' _ (Ends-turn left (number + 1) deadline _ exc'))

  -- A turn makes at least one attempt and at most as many as `retry_attempts`. Each attempt but the
  -- last failed at the transport, and the reply of the last one is what the turn comes back with,
  -- unless it failed at the transport too and the turn is cancelled in the sleep after it: then
  -- the turn ends with that cancellation. So no other failure is retried, and none is lost.
  pub send_prompt-Settles :
      (now : ℕ)
      → 1 ≤ c.retry_attempts
      → (length (send_prompt c attempt sleep now).1 ≤ c.retry_attempts)
        × Settles attempt sleep
            (send_prompt c attempt sleep now).1
            (send_prompt c attempt sleep now).0
  unfolding send_prompt
  send_prompt-Settles now h =
      (length-turn c.retry_attempts 1 (now + c.timeout) none now, first c.retry_attempts h)
    where
      first :
          (left : ℕ)
          → 1 ≤ left
          → Settles attempt sleep
              (turn c attempt sleep left 1 (now + c.timeout) none now).1
              (turn c attempt sleep left 1 (now + c.timeout) none now).0
      first zero pos = absurd (omega arith)
      first (suc left) pos =
          Settles-judge _ _ _ refl
            λ exc. Ends-sleep _ exc _ (Ends-turn left 2 (now + c.timeout) _ exc)

  IsWithin-judge :
      (deadline : ℕ) (made : Attempt) (retry : Failure → Reply × List Attempt) (reply : Reply)
      → IsWithin deadline made
      → ((exc : Failure) → All (IsWithin deadline) (retry exc).1)
      → All (IsWithin deadline) (judge c attempt sleep made retry reply).1
  unfolding judge
  IsWithin-judge deadline made retry (answered text) w h = (w, tt)
  IsWithin-judge deadline made retry (failed exc) w h =
      All-if (IsWithin deadline) _ made (failed exc) (retry exc) w (h exc)
  IsWithin-judge deadline made retry (stopped repr) w h = (w, tt)

  retries-IsWithin :
      (left number deadline : ℕ) (exc : Failure) (now : ℕ)
      → c.second ≤ c.min_budget
      → 1 ≤ c.min_budget
      → All (IsWithin deadline) (turn c attempt sleep left number deadline (some exc) now).1
  unfolding turn gate
  retries-IsWithin zero number deadline exc now fits some_budget = tt
  retries-IsWithin (suc left) number deadline exc now fits some_budget =
      elim (Bool-cases (ltb (deadline - now) c.min_budget)) [
        | inl late ↦ rw late tt
        | inr early ↦ rw early (
            IsWithin-judge deadline _ _ _ (ground arith) λ exc'.
              All-after_sleep (IsWithin deadline) _ _
                λ later. retries-IsWithin left (number + 1) deadline exc' later fits some_budget)
      ]

  retries-judge :
      (deadline : ℕ) (made : Attempt) (retry : Failure → Reply × List Attempt) (reply : Reply)
      → ((exc : Failure) → All (IsWithin deadline) (retry exc).1)
      → All (IsWithin deadline) (retries (judge c attempt sleep made retry reply).1)
  unfolding judge
  retries-judge deadline made retry (answered text) h = tt
  retries-judge deadline made retry (failed exc) h =
      retries-if (IsWithin deadline) _ made (failed exc) (retry exc) (h exc)
  retries-judge deadline made retry (stopped repr) h = tt

  -- Every attempt after the first ends its share by the turn's one deadline, so a retry never
  -- extends the turn beyond it; for a least share of no more than the least budget, itself positive.
  pub send_prompt-IsWithin :
      (now : ℕ)
      → c.second ≤ c.min_budget
      → 1 ≤ c.min_budget
      → All (IsWithin (now + c.timeout)) (retries (send_prompt c attempt sleep now).1)
  unfolding send_prompt
  send_prompt-IsWithin now fits some_budget = from_first c.retry_attempts
    where
      from_first :
          (left : ℕ)
          → All
              (IsWithin (now + c.timeout))
              (retries (turn c attempt sleep left 1 (now + c.timeout) none now).1)
      from_first zero = tt
      from_first (suc left) = retries-judge (now + c.timeout) _ _ _ λ exc.
          All-after_sleep (IsWithin (now + c.timeout)) _ _
            λ later. retries-IsWithin left 2 (now + c.timeout) exc later fits some_budget
