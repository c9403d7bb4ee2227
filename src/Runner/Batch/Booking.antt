-- ===== src/Runner/Batch/Booking.antt =====
-- The loop after `gather` books each task that an exception ended before it recorded a result.
use autobench.Prelude.{
  ℕ, ◌+◌, ◌≤◌, min, String, Bool, true, false, ◌&&◌, ◌≡◌, refl, List, [], ◌∷◌, map, any, count_if,
  arith, ◌==◌, eq_iff, if◌then◌else◌,
}
use autobench.Prelude.Outcome.{Raised}
use autobench.Models.Run.{TaskResult}
use autobench.Runner.Batch.{
  Slot, Phase, waiting, running, recording, finished, aborted, is_done, aborted_result, book_one,
  book,
}
use autobench.Runner.Batch.Accounting.{
  results_of, times, finished_of, is_finished, results_of-append,
}

abbrev is_aborted : Phase → Bool
is_aborted (aborted e) = true
is_aborted _ = false

abbrev aborted_of : String → List Slot → ℕ
aborted_of t slots = count_if (λ s. s.task_id == t && is_aborted s.phase) slots

-- `gather` has every outcome.
abbrev pub AllDone : List Slot → Type 0
AllDone [] = Unit
AllDone (s ∷ slots) = (is_done s.phase ≡ true) × AllDone slots

any→one-le-count :
    (t : String) (results : List TaskResult)
    → any (λ r. r.task_id == t) results ≡ true
    → 1 ≤ results_of t results
unfolding any count_if
any→one-le-count t [] h = cc
any→one-le-count t (r ∷ results) h = ground (arith, any→one-le-count t results)

book_one-le :
    (repr : Raised → String) (t i : String) (p : Phase) (results : List TaskResult)
    → (results_of t results ≤ results_of t (book_one repr i p results))
      × (results_of t (book_one repr i p results)
          ≤ results_of t results + (if i == t && is_aborted p then 1 else 0))
unfolding book_one
book_one-le repr t i (aborted e) results =
    ground (arith, results_of-append t results (aborted_result repr i e))
book_one-le repr t i waiting results = ground arith
book_one-le repr t i running results = ground arith
book_one-le repr t i (recording r) results = ground arith
book_one-le repr t i finished results = ground arith

book_one-books :
    (repr : Raised → String) (t i : String) (p : Phase) (results : List TaskResult)
    → (i == t) ≡ true
    → is_aborted p ≡ true
    → 1 ≤ results_of t (book_one repr i p results)
unfolding book_one
book_one-books repr t i (aborted e) results same h =
    let same_text : i ≡ t = (eq_iff i t).0 same in
    ground
      (arith, results_of-append t results (aborted_result repr i e), any→one-le-count i results)
book_one-books repr t i waiting results same h = cc
book_one-books repr t i running results same h = cc
book_one-books repr t i (recording r) results same h = cc
book_one-books repr t i finished results same h = cc

phase_done :
    (same : Bool) (p : Phase)
    → is_done p ≡ true
    → ◌≡◌ {A = ℕ}
        ((if same && is_finished p then 1 else 0) + (if same && is_aborted p then 1 else 0))
        (if same then 1 else 0)
phase_done same waiting h = cc
phase_done same running h = cc
phase_done same (recording r) h = cc
phase_done same finished h = ground arith
phase_done same (aborted e) h = ground arith

-- Booking adds at most one result for each aborted slot of an id, and drops none.
book-le :
    (repr : Raised → String) (t : String) (slots : List Slot) (results : List TaskResult)
    → (results_of t results ≤ results_of t (book repr slots results))
      × (results_of t (book repr slots results) ≤ results_of t results + aborted_of t slots)
unfolding book count_if
book-le repr t [] results = omega arith
book-le repr t (s ∷ slots) results = omega (
  arith,
  book_one-le repr t s.task_id s.phase results,
  book-le repr t slots (book_one repr s.task_id s.phase results),
)

-- An id with an aborted slot has a result after booking.
book-books :
    (repr : Raised → String) (t : String) (slots : List Slot) (results : List TaskResult)
    → 1 ≤ aborted_of t slots
    → 1 ≤ results_of t (book repr slots results)
unfolding book count_if
book-books repr t [] results h = omega arith
book-books repr t (s ∷ slots) results h =
    let rest : List TaskResult = book_one repr s.task_id s.phase results in
    ground (
      arith,
      book_one-books repr t s.task_id s.phase results,
      book-le repr t slots rest,
      book-books repr t slots rest,
    )

done-times :
    (t : String) (slots : List Slot)
    → AllDone slots
    → finished_of t slots + aborted_of t slots ≡ times t (map (λ s. s.task_id) slots)
unfolding count_if
done-times t [] h = refl
done-times t (s ∷ slots) h =
    omega (arith, done-times t slots h.1, phase_done (s.task_id == t) s.phase h.0)

-- A batch whose every task is through or aborted, and whose finished slots have their results.
pub book_accounts :
    (repr : Raised → String) (t : String) (slots : List Slot) (results : List TaskResult)
    → AllDone slots
    → results_of t results ≡ finished_of t slots
    → (results_of t (book repr slots results) ≤ times t (map (λ s. s.task_id) slots))
      × (min 1 (times t (map (λ s. s.task_id) slots)) ≤ results_of t (book repr slots results))
book_accounts repr t slots results done h =
    ground (
      arith,
      book-le repr t slots results,
      book-books repr t slots results,
      done-times t slots done,
    )
