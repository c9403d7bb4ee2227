-- ===== src/Runner/Batch/Summary.antt =====
-- The summary that is published with each result, which a run that is cut off is left with.
use autobench.Prelude.{
  ◌&&◌, ℕ, ◌+◌, ◌≤◌, max, String, Bool, true, false, not, ◌≡◌, refl, ◌⊎◌, inl, inr, Option, none,
  some, List, [], ◌∷◌, ◌++◌, map, length, count_if, count_if-le-length, arith, is_some, All,
  All-append,
}
use autobench.Models.Run.{TaskResult, RunState, RunSummary}
use autobench.Runner.Clients.{Clients}
use autobench.Runner.Task.{Meta}
use autobench.Runner.Batch.One.{one-IsFor}
use autobench.Runner.Batch.{
  Batch, Slot, Phase, waiting, running, recording, finished, aborted, slot, summarize, Step, enter,
  leave, append, abort, Steps, here, next, begin,
}

-- How many results have no error, and how many passed.
abbrev pub error_free : List TaskResult → ℕ
error_free [] = 0
error_free (r ∷ results) = elim r.error [ none ↦ 1 | some _ ↦ 0 ] + error_free results

abbrev pub passes : List TaskResult → ℕ
passes [] = 0
passes (r ∷ results) = elim r.passed [ true ↦ 1 | false ↦ 0 ] + passes results

error_free_lem :
    (results : List TaskResult) → count_if (λ r. not (is_some r.error)) results ≡ error_free results
unfolding count_if
error_free_lem [] = refl
error_free_lem (r ∷ results) = grind (arith, error_free_lem results)

passes_lem : (results : List TaskResult) → count_if (λ r. r.passed) results ≡ passes results
unfolding count_if
passes_lem [] = refl
passes_lem (r ∷ results) = grind (arith, passes_lem results)

-- What a summary says of the results: how many there are, how many of them have no error and how
-- many passed, no more than have no error; and the rate of passes, 0 of 1 where there is no result.
pub record Tells (s : RunSummary) (results : List TaskResult) : Type 0 where
  pub total : s.total ≡ length results
  pub succeeded : s.succeeded ≡ error_free results
  pub evaluated_pass : s.evaluated_pass ≡ passes results
  pub part : s.pass_rate.part ≡ passes results
  pub whole : s.pass_rate.whole ≡ max 1 (length results)
  pub passes-le : s.evaluated_pass ≤ s.succeeded
  pub succeeded-le : s.succeeded ≤ s.total

-- A task that passed has no error.
abbrev pub IsSound : TaskResult → Type 0
IsSound r = (r.passed && is_some r.error) ≡ false

abbrev IsSoundSlot : Slot → Type 0
IsSoundSlot s = (r : TaskResult) → s.phase ≡ recording r → IsSound r

passed-le-succeeded :
    (results : List TaskResult)
    → All IsSound results
    → count_if (λ r. r.passed) results ≤ count_if (λ r. not (is_some r.error)) results
unfolding count_if
passed-le-succeeded [] h = omega arith
passed-le-succeeded (r ∷ results) h = ground (arith, h.0, passed-le-succeeded results h.1)

pass_part :
    (wall : ℕ) (results : List TaskResult)
    → (summarize wall results).pass_rate.part ≡ passes results
unfolding summarize
pass_part wall [] = refl
pass_part wall (r ∷ results) = ground (arith, passes_lem (r ∷ results))

pass_whole :
    (wall : ℕ) (results : List TaskResult)
    → (summarize wall results).pass_rate.whole ≡ max 1 (length results)
unfolding summarize
pass_whole wall [] = refl
pass_whole wall (r ∷ results) = ground arith

summarize-Tells :
    (wall : ℕ) (results : List TaskResult)
    → All IsSound results
    → Tells (summarize wall results) results
unfolding summarize
summarize-Tells wall results h = record {
  total = refl;
  succeeded = error_free_lem results;
  evaluated_pass = passes_lem results;
  part = pass_part wall results;
  whole = pass_whole wall results;
  passes-le = passed-le-succeeded results h;
  succeeded-le = count_if-le-length (λ r. not (is_some r.error)) results;
}

All-split :
    (P : Slot → Type 0) (xs ys : List Slot) (s : Slot)
    → All P (xs ++ s ∷ ys)
    → All P xs × P s × All P ys
All-split P [] ys s h = (tt, h.0, h.1)
All-split P (x ∷ xs) ys s h =
    let rest : All P xs × P s × All P ys = All-split P xs ys s h.1 in
    ((h.0, rest.0), rest.1, rest.2)

-- The results are sound, and if there is one, the summary is theirs.
record IsCurrent (b : Batch) : Type 0 where
  results : All IsSound b.run.results
  slots : All IsSoundSlot b.slots
  summary :
      (b.run.results ≡ []) ⊎ ((wall : ℕ) × (b.run.summary ≡ some (summarize wall b.run.results)))

IsCurrent-move :
    (b : Batch) (xs ys : List Slot) (i : String) (p q : Phase)
    → b.slots ≡ xs ++ slot i p ∷ ys
    → IsSoundSlot (slot i q)
    → IsCurrent b
    → IsCurrent (record b { slots = xs ++ slot i q ∷ ys })
IsCurrent-move b xs ys i p q e new h =
    let old : All IsSoundSlot xs × IsSoundSlot (slot i p) × All IsSoundSlot ys =
      All-split IsSoundSlot xs ys (slot i p) (rw e at h.slots) in
    record {
      results = h.results;
      slots = All-append IsSoundSlot xs (slot i q ∷ ys) old.0 (new, old.2);
      summary = h.summary;
    }

IsCurrent-begin : (run : RunState) (task_ids : List String) → IsCurrent (begin run task_ids)
IsCurrent-begin run task_ids = record { results = tt; slots = start task_ids; summary = inl refl }
  where
    start : (task_ids : List String) → All IsSoundSlot (map (λ t. slot t waiting) task_ids)
    start [] = tt
    start (t ∷ task_ids) = (λ r e. cc, start task_ids)

module _ (c : Clients) (traced : Bool) (meta : Meta) (task_timeout : Option ℕ)
    (max_parallel : ℕ) where
  Step-IsCurrent :
      {b b' : Batch}
      → Step c traced meta task_timeout max_parallel b b'
      → IsCurrent b
      → IsCurrent b'
  Step-IsCurrent {b} (enter xs ys i e room e') h =
      rw e' (IsCurrent-move b xs ys i waiting running e (λ r q. cc) h)
  Step-IsCurrent {b} (leave xs ys i w r e q e') h = rw e' (
      IsCurrent-move b xs ys i running (recording r) e
        (λ r' q'. ground (arith, (one-IsFor c traced meta task_timeout i w r q).1)) h)
  Step-IsCurrent {b} (append xs ys i r wall e e') h =
      let old : All IsSoundSlot xs × IsSoundSlot (slot i (recording r)) × All IsSoundSlot ys =
        All-split IsSoundSlot xs ys (slot i (recording r)) (rw e at h.slots) in
      rw e' (record {
        results = All-append IsSound b.run.results (r ∷ []) h.results (old.1 r refl, tt);
        slots = All-append IsSoundSlot xs (slot i finished ∷ ys) old.0 (λ r e. cc, old.2);
        summary = inr (wall, refl);
      })
  Step-IsCurrent {b} (abort xs ys i p x e live e') h =
      rw e' (IsCurrent-move b xs ys i p (aborted x) e (λ r q. cc) h)

  Steps-IsCurrent :
      (run : RunState) (task_ids : List String) {b : Batch}
      → Steps c traced meta task_timeout max_parallel (begin run task_ids) b
      → IsCurrent b
  Steps-IsCurrent run task_ids here = IsCurrent-begin run task_ids
  Steps-IsCurrent run task_ids (next before step) =
      Step-IsCurrent step (Steps-IsCurrent run task_ids before)

  -- At every point of every interleaving, so also where a deadline cuts the run off: there is no
  -- result yet, or the run has a summary that tells of its results: its total is their number, its
  -- successes are those without an error, its passes those that passed, no more than the successes,
  -- and its rate is that of the passes among them all.
  pub Steps-summary :
      (run : RunState) (task_ids : List String) {b : Batch}
      → Steps c traced meta task_timeout max_parallel (begin run task_ids) b
      → (b.run.results ≡ []) ⊎ ((s : RunSummary) × (b.run.summary ≡ some s) × Tells s b.run.results)
  Steps-summary run task_ids {b} steps =
      let h : IsCurrent b = Steps-IsCurrent run task_ids steps in
      elim h.summary [
        | inl empty ↦ inl empty
        | inr (wall, e) ↦
            inr (summarize wall b.run.results, e, summarize-Tells wall b.run.results h.results)
      ]
