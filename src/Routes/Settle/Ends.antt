-- ===== src/Routes/Settle/Ends.antt =====
-- routes/runs.py, `_collect_records_soft`: the number of its rounds, and what it ends with.
use autobench.Prelude.{
  ℕ, zero, suc, ◌+◌, ◌≤◌, ◌<◌, ◌≡◌, ◌⊎◌, inl, inr, Option, none, some, arith, refl, Bool-cases, leb,
}
use autobench.Prelude.Outcome.{Action, Outcome, return, raise}
use autobench.Routes.Settle.{
  Fingerprint, Read, Settled, has_settled, next_round, after_read, collect, collect_records_soft,
}

module _ {W Rows : Type 0} (now : W → ℕ) (fetch : Action W (Option (Read Rows)))
    (sleep : Action W (Unit {0})) where
  -- The loop returns the records of a read, or raises what a read or a sleep has raised.
  abbrev pub Came : Outcome (Read Rows) → Type 0
  Came (return read) = (w : W) × ((fetch w).0 ≡ return (some read))
  Came (raise e) = ((w : W) × ((fetch w).0 ≡ raise e)) ⊎ ((w : W) × ((sleep w).0 ≡ raise e))

  -- The loop has ended: it returns what it began with, the records of a read, or an exception.
  abbrev pub Ended : Read Rows → Settled W Rows → Type 0
  Ended nothing none = ⊥
  Ended nothing (some (result, w)) = (result ≡ return nothing) ⊎ Came result

  module _ (forward : (w : W) → now w ≤ now (fetch w).1)
      (advance : (w : W) → now w < now (sleep w).1) (nothing : Read Rows) where
    next_round_ends :
        (w : W) (slept : Outcome (Unit {0}) × W) (again : W → Settled W Rows)
        → slept.0 ≡ (sleep w).0
        → (slept.0 ≡ return tt → Ended nothing (again slept.1))
        → Ended nothing (next_round now fetch sleep slept again)
    unfolding next_round
    next_round_ends w (return _, w') again same h = h refl
    next_round_ends w (raise e, w') again same h = inr (inr (w, cc))

    after_read_ends :
        (deadline : ℕ) (previous : Option Fingerprint) (last : Read Rows) (w : W)
        (r : Outcome (Option (Read Rows)) × W) (again : Read Rows → W → Settled W Rows)
        → r.0 ≡ (fetch w).0
        → (last ≡ nothing) ⊎ Came (return last)
        → ((read : Read Rows)
            → Came (return read)
            → now r.1 < deadline
            → Ended nothing (again read (sleep r.1).1))
        → Ended nothing (after_read now fetch sleep deadline previous last r again)
    unfolding after_read
    after_read_ends deadline previous last w (raise e, w') again same from h = inr (inl (w, cc))
    after_read_ends deadline previous last w (return none, w') again same (inl begun) h =
        inl (rw begun refl)
    after_read_ends deadline previous last w (return none, w') again same (inr came) h = inr came
    after_read_ends deadline previous last w (return (some read), w') again same from h =
        elim (Bool-cases (has_settled now fetch sleep previous read)) [
          | inl settled ↦ rw settled (inr (w, cc))
          | inr grows ↦ rw grows (elim (Bool-cases (leb deadline (now w'))) [
            | inl late ↦ rw late (inr (w, cc))
            | inr early ↦
                rw early (
                  next_round_ends w' (sleep w') (again read) refl
                    λ _. h read (w, cc) (ground arith))
          ])
        ]

    collect_ends :
        (fuel deadline : ℕ) (previous : Option Fingerprint) (last : Read Rows) (w : W)
        → (last ≡ nothing) ⊎ Came (return last)
        → deadline < now w + fuel
        → Ended nothing (collect now fetch sleep (suc fuel) deadline previous last w)
    unfolding collect
    collect_ends zero deadline previous last w from h =
        after_read_ends deadline previous last w (fetch w) _ refl from
          λ read came late. absurd (omega (arith, forward w))
    collect_ends (suc fuel) deadline previous last w from h =
        after_read_ends deadline previous last w (fetch w) _ refl from λ read came late.
          collect_ends fuel deadline _ read (sleep (fetch w).1).1 (inr came)
            (omega (arith, forward w, advance (fetch w).1))

    -- If each sleep takes some time and no read turns back the clock, the loop ends within
    -- `settle_max + 2` rounds: it returns the records of one of its reads, or those that it began
    -- with, or raises what a read or a sleep has raised.
    pub collect_records_soft_ends :
        (settle_max : ℕ) (w : W)
        → Ended nothing
            (collect_records_soft now fetch sleep (suc (suc settle_max)) settle_max nothing w)
    unfolding collect_records_soft
    collect_records_soft_ends settle_max w =
        collect_ends (suc settle_max) (now w + settle_max) none nothing w (inl refl) (omega arith)
