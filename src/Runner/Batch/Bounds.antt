-- ===== src/Runner/Batch/Bounds.antt =====
-- The bound of the semaphore on the tasks that run at once.
use autobench.Prelude.{
  ℕ, ◌+◌, ◌≤◌, max, String, Bool, ◌≡◌, refl, ap, Option, List, [], ◌∷◌, ◌++◌, map, count_if, arith,
  if◌then◌else◌,
}
use autobench.Models.Run.{RunState}
use autobench.Runner.Clients.{Clients}
use autobench.Runner.Task.{Meta}
use autobench.Runner.Batch.{
  Batch, Slot, Phase, waiting, running, recording, finished, aborted, is_running, slot, Step, enter,
  leave, append, abort, Steps, here, next, begin,
}

abbrev pub in_flight : List Slot → ℕ
in_flight slots = count_if (λ s. is_running s.phase) slots

in_flight-split :
    (xs ys : List Slot) (i : String) (p : Phase)
    → in_flight (xs ++ slot i p ∷ ys)
      ≡ in_flight xs + (if is_running p then 1 else 0) + in_flight ys
unfolding count_if
in_flight-split [] ys i p = omega arith
in_flight-split (x ∷ xs) ys i p = omega (arith, in_flight-split xs ys i p)

in_flight-begin : (task_ids : List String) → in_flight (map (λ t. slot t waiting) task_ids) ≡ 0
unfolding count_if
in_flight-begin [] = refl
in_flight-begin (t ∷ task_ids) = omega (arith, in_flight-begin task_ids)

module _ (c : Clients) (traced : Bool) (meta : Meta) (task_timeout : Option ℕ)
    (max_parallel : ℕ) where
  Step-in_flight :
      {b b' : Batch}
      → Step c traced meta task_timeout max_parallel b b'
      → in_flight b.slots ≤ max 1 max_parallel
      → in_flight b'.slots ≤ max 1 max_parallel
  Step-in_flight (enter xs ys i e room e') h = rw e' (
      omega
        (arith, ap in_flight e, in_flight-split xs ys i waiting, in_flight-split xs ys i running))
  Step-in_flight (leave xs ys i w r e q e') h = rw e' (
      omega (
        arith,
        ap in_flight e,
        in_flight-split xs ys i running,
        in_flight-split xs ys i (recording r),
      ))
  Step-in_flight (append xs ys i r wall e e') h = rw e' (
      omega (
        arith,
        ap in_flight e,
        in_flight-split xs ys i (recording r),
        in_flight-split xs ys i finished,
      ))
  Step-in_flight (abort xs ys i p x e live e') h = rw e' (
      ground
        (arith, ap in_flight e, in_flight-split xs ys i p, in_flight-split xs ys i (aborted x)))

  -- At no point of any interleaving are more tasks inside the semaphore than
  -- `max(1, max_parallel)`.
  pub Steps-in_flight :
      (run : RunState) (task_ids : List String) {b : Batch}
      → Steps c traced meta task_timeout max_parallel (begin run task_ids) b
      → in_flight b.slots ≤ max 1 max_parallel
  Steps-in_flight run task_ids here = omega (arith, in_flight-begin task_ids)
  Steps-in_flight run task_ids (next before step) =
      Step-in_flight step (Steps-in_flight run task_ids before)
