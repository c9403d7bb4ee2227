-- ===== src/Runner/Batch/Accounting.antt =====
-- engine.py, `run_benchmark`: the tasks of a batch and the run's results.
use autobench.Prelude.{
  ℕ, ◌+◌, String, Bool, true, false, ◌&&◌, ◌≡◌, refl, sym, ap, ◌∙◌, Option, List, [], ◌∷◌, ◌++◌,
  map, count_if, count_if-append, arith, ◌==◌, if◌then◌else◌,
}
use autobench.Models.Run.{TaskResult, RunState}
use autobench.Runner.Clients.{Clients}
use autobench.Runner.Task.{Meta}
use autobench.Runner.Task.Result.{IsFor}
use autobench.Runner.Batch.One.{one-IsFor}
use autobench.Runner.Batch.{
  Batch, Slot, Phase, waiting, running, recording, finished, aborted, is_done, slot, append_result,
  Step, enter, leave, append, abort, Steps, here, next, begin,
}

-- How many results bear an id, and how many slots of that id have recorded theirs.
abbrev pub results_of : String → List TaskResult → ℕ
results_of t results = count_if (λ r. r.task_id == t) results

abbrev pub times : String → List String → ℕ
times t task_ids = count_if (λ i. i == t) task_ids

abbrev pub is_finished : Phase → Bool
is_finished finished = true
is_finished _ = false

abbrev pub finished_of : String → List Slot → ℕ
finished_of t slots = count_if (λ s. s.task_id == t && is_finished s.phase) slots

-- A result that waits to be recorded is the slot's own.
abbrev IsOwn : Slot → Type 0
IsOwn s = (r : TaskResult) → s.phase ≡ recording r → r.task_id ≡ s.task_id

abbrev AllOwn : List Slot → Type 0
AllOwn [] = Unit
AllOwn (s ∷ slots) = IsOwn s × AllOwn slots

AllOwn-split :
    (xs ys : List Slot) (s : Slot) → AllOwn (xs ++ s ∷ ys) → AllOwn xs × IsOwn s × AllOwn ys
AllOwn-split [] ys s h = (tt, h.0, h.1)
AllOwn-split (x ∷ xs) ys s h =
    let rest : AllOwn xs × IsOwn s × AllOwn ys = AllOwn-split xs ys s h.1 in
    ((h.0, rest.0), rest.1, rest.2)

AllOwn-join :
    (xs ys : List Slot) (s : Slot) → AllOwn xs → IsOwn s → AllOwn ys → AllOwn (xs ++ s ∷ ys)
AllOwn-join [] ys s hx hs hy = (hs, hy)
AllOwn-join (x ∷ xs) ys s hx hs hy = (hx.0, AllOwn-join xs ys s hx.1 hs hy)

record IsAccounted (task_ids : List String) (b : Batch) : Type 0 where
  slots_are : map (λ s. s.task_id) b.slots ≡ task_ids
  booked : (t : String) → results_of t b.run.results ≡ finished_of t b.slots
  own : AllOwn b.slots

ids_begin :
    (task_ids : List String) → map (λ s. s.task_id) (map (λ t. slot t waiting) task_ids) ≡ task_ids
ids_begin [] = refl
ids_begin (t ∷ task_ids) = ap (λ l. t ∷ l) (ids_begin task_ids)

none_finished :
    (t : String) (task_ids : List String) → finished_of t (map (λ t. slot t waiting) task_ids) ≡ 0
unfolding count_if
none_finished t [] = refl
none_finished t (i ∷ task_ids) = ground (arith, none_finished t task_ids)

begin_own : (task_ids : List String) → AllOwn (map (λ t. slot t waiting) task_ids)
begin_own [] = tt
begin_own (t ∷ task_ids) = (λ r e. cc, begin_own task_ids)

begin-IsAccounted :
    (run : RunState) (task_ids : List String) → IsAccounted task_ids (begin run task_ids)
unfolding count_if
begin-IsAccounted run task_ids = record {
  slots_are = ids_begin task_ids;
  booked = λ t. sym (none_finished t task_ids);
  own = begin_own task_ids;
}

ids_replace :
    (xs ys : List Slot) (i : String) (p q : Phase)
    → map (λ s. s.task_id) (xs ++ slot i p ∷ ys) ≡ map (λ s. s.task_id) (xs ++ slot i q ∷ ys)
ids_replace [] ys i p q = refl
ids_replace (x ∷ xs) ys i p q = ap (λ l. x.task_id ∷ l) (ids_replace xs ys i p q)

-- The count before and after a slot's phase has changed.
finished_of-split :
    (t : String) (xs ys : List Slot) (i : String) (p : Phase)
    → finished_of t (xs ++ slot i p ∷ ys)
      ≡ finished_of t xs + (if i == t && is_finished p then 1 else 0) + finished_of t ys
unfolding count_if
finished_of-split t [] ys i p = omega arith
finished_of-split t (x ∷ xs) ys i p = omega (arith, finished_of-split t xs ys i p)

pub results_of-append :
    (t : String) (results : List TaskResult) (r : TaskResult)
    → results_of t (results ++ r ∷ []) ≡ results_of t results + (if r.task_id == t then 1 else 0)
unfolding count_if
results_of-append t results r =
    omega (arith, count_if-append (λ (x : TaskResult). x.task_id == t) results (r ∷ []))

unfinished :
    (same : Bool) (p : Phase)
    → is_finished p ≡ false
    → ◌≡◌ {A = ℕ} (if same && is_finished p then 1 else 0) 0
unfinished same p h = ground arith

-- A slot moves to a phase that is not finished, and the results stay.
IsAccounted-move :
    (task_ids : List String) (b : Batch) (xs ys : List Slot) (i : String) (p q : Phase)
    → b.slots ≡ xs ++ slot i p ∷ ys
    → is_finished p ≡ false
    → is_finished q ≡ false
    → IsOwn (slot i q)
    → IsAccounted task_ids b
    → IsAccounted task_ids (record b { slots = xs ++ slot i q ∷ ys })
IsAccounted-move task_ids b xs ys i p q e hp hq own_q h =
    let split : AllOwn xs × IsOwn (slot i p) × AllOwn ys =
      AllOwn-split xs ys (slot i p) (rw e at h.own) in
    record {
      slots_are = ids_replace xs ys i q p ∙ (rw e at h.slots_are);
      booked = λ t. omega (
        arith,
        h.booked t,
        ap (finished_of t) e,
        finished_of-split t xs ys i p,
        finished_of-split t xs ys i q,
        unfinished (i == t) p hp,
        unfinished (i == t) q hq,
      );
      own = AllOwn-join xs ys (slot i q) split.0 own_q split.2;
    }

not_done : (p : Phase) → is_done p ≡ false → is_finished p ≡ false
not_done waiting h = refl
not_done running h = refl
not_done (recording r) h = refl
not_done finished h = cc
not_done (aborted e) h = refl

own_result :
    (i : String) (r r' : TaskResult) → IsFor i r → recording r ≡ recording r' → r'.task_id ≡ i
own_result i r r' h q = cc h.0

IsAccounted-append :
    (task_ids : List String) (b : Batch) (xs ys : List Slot) (i : String) (r : TaskResult)
    (wall : ℕ)
    → b.slots ≡ xs ++ slot i (recording r) ∷ ys
    → IsAccounted task_ids b
    → IsAccounted task_ids
        (record { run = append_result wall r b.run; slots = xs ++ slot i finished ∷ ys })
IsAccounted-append task_ids b xs ys i r wall e h =
    let split : AllOwn xs × IsOwn (slot i (recording r)) × AllOwn ys =
      AllOwn-split xs ys (slot i (recording r)) (rw e at h.own) in
    record {
      slots_are = ids_replace xs ys i finished (recording r) ∙ (rw e at h.slots_are);
      booked = λ t. ground (
        arith,
        h.booked t,
        ap (finished_of t) e,
        split.1 r refl,
        results_of-append t b.run.results r,
        finished_of-split t xs ys i (recording r),
        finished_of-split t xs ys i finished,
      );
      own = AllOwn-join xs ys (slot i finished) split.0 (λ r e. cc) split.2;
    }

module _ (c : Clients) (traced : Bool) (meta : Meta) (task_timeout : Option ℕ) (max_parallel : ℕ)
    (task_ids : List String) where
  Step-IsAccounted :
      {b b' : Batch}
      → Step c traced meta task_timeout max_parallel b b'
      → IsAccounted task_ids b
      → IsAccounted task_ids b'
  Step-IsAccounted {b} (enter xs ys i e room e') h =
      rw e' (IsAccounted-move task_ids b xs ys i waiting running e refl refl (λ r q. cc) h)
  Step-IsAccounted {b} (leave xs ys i w r e q e') h = rw e' (
      IsAccounted-move task_ids b xs ys i running (recording r) e refl refl
        (λ r' q'. own_result i r r' (one-IsFor c traced meta task_timeout i w r q) q') h)
  Step-IsAccounted {b} (append xs ys i r wall e e') h =
      rw e' (IsAccounted-append task_ids b xs ys i r wall e h)
  Step-IsAccounted {b} (abort xs ys i p x e live e') h =
      rw e'
        (IsAccounted-move task_ids b xs ys i p (aborted x) e (not_done p live) refl (λ r q. cc) h)

  Steps-IsAccounted :
      {b b' : Batch}
      → Steps c traced meta task_timeout max_parallel b b'
      → IsAccounted task_ids b
      → IsAccounted task_ids b'
  Steps-IsAccounted here h = h
  Steps-IsAccounted (next before step) h = Step-IsAccounted step (Steps-IsAccounted before h)

  -- In every batch that steps lead to, each id has as many results as finished slots.
  pub Steps-accounts :
      (run : RunState) {b : Batch}
      → Steps c traced meta task_timeout max_parallel (begin run task_ids) b
      → (map (λ s. s.task_id) b.slots ≡ task_ids)
        × ((t : String) → results_of t b.run.results ≡ finished_of t b.slots)
  Steps-accounts run steps =
      let h : IsAccounted task_ids _ = Steps-IsAccounted steps (begin-IsAccounted run task_ids) in
      (h.slots_are, h.booked)
