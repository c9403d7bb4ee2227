-- ===== src/Runner/Task/Cleanup.antt =====
-- engine.py, `_run_task`: the sessions that a task opens, and their deletion.
use autobench.Prelude.{
  ℕ, String, Bool, ◌≡◌, refl, sym, ap, ◌∙◌, Option, none, some, List, [], ◌∷◌, ◌++◌, arith,
}
use autobench.Prelude.Outcome.{
  Action, Outcome, return, raise, pure, try_except, try_finally, gets, and_then,
}
use mathlib.Core.List.{append-nil}
use autobench.Prelude.Outcome.Rules.{Keeps, Keeps-pure, Keeps-handle, keep_keeps, keeps_rules}
use autobench.Models.Run.{TaskResult}
use autobench.Runner.Clients.{Clients}
use autobench.Runner.Task.{
  SpanEvent, child, Meta, Local, call, read, emit, set_text, set_number, set_meta, converse,
  attempt, capture, cleanup, delete_if, run_task,
}

-- A world with the sessions that were opened and deleted in it, in order.
pub record Watched (W : Type 0) : Type 0 where
  pub inner : W
  pub opened : List String
  pub deleted : List String

abbrev pub within : {W A : Type 0} → Action W A → Action (Watched W) A
within f w = let (result, inner) = f w.inner in (result, record w { inner = inner })

abbrev pub within_clock : {W : Type 0} → (W → ℕ × W) → Watched W → ℕ × Watched W
within_clock f w = let (now, inner) = f w.inner in (now, record w { inner = inner })

abbrev pub note_open : {W C : Type 0} → Outcome (String × String × C) → Watched W → Watched W
note_open (return (session_id, _, _)) w = record w { opened = w.opened ++ session_id ∷ [] }
note_open (raise _) w = w

-- The same clients, with a note of each `create_session` that returned and each `delete_session`.
abbrev pub watched : Clients → Clients
watched c = record {
  World = Watched c.World;
  monotonic = within_clock c.monotonic;
  time = within_clock c.time;
  fmt_g = c.fmt_g;
  list_tasks = within c.list_tasks;
  create_session = λ task_id w.
      let (result, w') = within (c.create_session task_id) w in (result, note_open result w');
  send_prompt = λ prompt session_id. within (c.send_prompt prompt session_id);
  evaluate_session = λ session_id. within (c.evaluate_session session_id);
  delete_session = λ session_id w.
      within (c.delete_session session_id) (record w { deleted = w.deleted ++ session_id ∷ [] });
}

abbrev still_open : Option String → List String
still_open none = []
still_open (some session_id) = session_id ∷ []

-- What is open and not deleted is the session of the variable `session_id`, if it is set.
abbrev IsTidy : {W : Type 0} → Local (Watched W) → Type 0
IsTidy s = s.world.opened ≡ s.world.deleted ++ still_open s.session_id

abbrev pub IsClosed : {W : Type 0} → Local (Watched W) → Type 0
IsClosed s = s.world.opened ≡ s.world.deleted

module _ {W : Type 0} where
  call-Keeps : {A : Type 0} (f : Action W A) → Keeps IsTidy (call (within f))
  call-Keeps f = record { at = λ s h. h }

  read-Keeps : (clock : W → ℕ × W) → Keeps IsTidy (read (within_clock clock))
  read-Keeps clock = record { at = λ s h. h }

  emit-Keeps :
      (traced : Bool) (e : SpanEvent) → Keeps {S = Local (Watched W)} IsTidy (emit traced e)
  emit-Keeps traced e = record { at = λ s h. ground arith }

  set_text-Keeps :
      (traced : Bool) (key : String) (value : Option String)
      → Keeps {S = Local (Watched W)} IsTidy (set_text traced key value)
  set_text-Keeps traced key none = record { at = λ s h. h }
  set_text-Keeps traced key (some v) = emit-Keeps traced _

  set_number-Keeps :
      (traced : Bool) (key : String) (value : Option ℕ)
      → Keeps {S = Local (Watched W)} IsTidy (set_number traced key value)
  set_number-Keeps traced key none = record { at = λ s h. h }
  set_number-Keeps traced key (some v) = emit-Keeps traced _

  session-Keeps : Keeps {S = Local (Watched W)} IsTidy (gets (λ s. s.session_id))
  session-Keeps = record { at = λ s h. h }

ruleset tidy_rules = (
  keeps_rules, call-Keeps, read-Keeps, emit-Keeps, set_text-Keeps, set_number-Keeps, session-Keeps,
)

abbrev pub IsUnopened : {W : Type 0} → Local (Watched W) → Type 0
IsUnopened s = s.session_id ≡ none

tidy_end : {W : Type 0} (s : Local (Watched W)) → s.session_id ≡ none → IsTidy s → IsClosed s
tidy_end s h k = k ∙ rw h (append-nil _)

tidy_open :
    {W : Type 0} (s : Local (Watched W)) (session_id : String)
    → s.session_id ≡ none
    → IsTidy s
    → s.world.opened ++ session_id ∷ [] ≡ s.world.deleted ++ session_id ∷ []
tidy_open s session_id h k = ap (λ l. l ++ session_id ∷ []) (k ∙ (rw h (append-nil _)))

module _ (c : Clients) (traced : Bool) (meta : Meta) (task_id : String) where
  converse-Keeps :
      (started : ℕ) (session_id task : String) (context : Option (List (String × String)))
      → Keeps IsTidy (converse (watched c) traced meta task_id started session_id task context)
  unfolding converse
  converse-Keeps started session_id task context = search tidy_rules depth 20

  capture-Keeps :
      (started : ℕ) (exc : String)
      → Keeps IsTidy (capture (watched c) traced meta task_id started exc)
  unfolding capture
  capture-Keeps started exc = search tidy_rules depth 20

  abbrev opening :
      ℕ
      → String × String × Option (List (String × String))
      → Action (Local (Watched c.World)) TaskResult
  opening started (session_id, task, context) s =
      converse (watched c) traced meta task_id started session_id task context
        (record s { session_id = some session_id })

  opening_keeps :
      (started : ℕ) (r : Outcome (String × String × Option (List (String × String))))
      (s : Local (Watched c.World))
      → s.session_id ≡ none
      → IsTidy s
      → IsTidy (and_then r (opening started) (record s { world = note_open r s.world })).1
  opening_keeps started (return (session_id, task, context)) s h k =
      (converse-Keeps started session_id task context).at
        (record s {
          session_id = some session_id;
          world = record s.world { opened = s.world.opened ++ session_id ∷ [] };
        })
        (tidy_open s session_id h k)
  opening_keeps started (raise e) s h k = k

  attempt_keeps :
      (started : ℕ) (s : Local (Watched c.World))
      → s.session_id ≡ none
      → IsTidy s
      → IsTidy (attempt (watched c) traced meta task_id started s).1
  unfolding attempt
  attempt_keeps started s h k =
      let s' : Local (Watched c.World) = (emit traced (child "MCP.CreateSession") s).1 in
      let answer : Outcome (String × String × Option (List (String × String))) × c.World =
        c.create_session task_id s'.world.inner in
      opening_keeps started answer.0 (record s' { world = record s'.world { inner = answer.1 } })
        (ground arith) ((emit-Keeps traced (child "MCP.CreateSession")).at s k)

  IsTidy-start : (s : Local (Watched c.World)) → s.session_id ≡ none → IsClosed s → IsTidy s
  IsTidy-start s h k = k ∙ sym (rw h (append-nil _))

  delete_if_closes :
      (o : Option String) (s : Local (Watched c.World))
      → s.session_id ≡ o
      → IsTidy s
      → IsClosed (delete_if (watched c) traced meta task_id o s).1
  unfolding delete_if
  delete_if_closes none s h k = k ∙ rw h (append-nil _)
  delete_if_closes (some session_id) s h k =
      Keeps-handle IsClosed (λ _. pure tt) (λ _. Keeps-pure IsClosed tt)
        (call ((watched c).delete_session session_id) s) (k ∙ rw h)

  cleanup_closes :
      (s : Local (Watched c.World))
      → IsTidy s
      → IsClosed (cleanup (watched c) traced meta task_id s).1
  unfolding cleanup
  cleanup_closes s k = delete_if_closes s.session_id s refl k

  guarded_keeps :
      (started : ℕ) (s : Local (Watched c.World))
      → s.session_id ≡ none
      → IsTidy s
      → IsTidy
          (try_except
            (attempt (watched c) traced meta task_id started)
            (capture (watched c) traced meta task_id started)
            s).1
  guarded_keeps started s h k =
      Keeps-handle IsTidy _ (capture-Keeps started)
        (attempt (watched c) traced meta task_id started s) (attempt_keeps started s h k)

  set_meta-Keeps : Keeps IsTidy (set_meta (watched c) traced meta task_id)
  unfolding set_meta
  set_meta-Keeps = search tidy_rules depth 12

  IsUnopened-text :
      (key : String) (value : Option String)
      → Keeps IsUnopened (set_text {W = Watched c.World} traced key value)
  IsUnopened-text key none = record { at = λ s h. h }
  IsUnopened-text key (some v) = record { at = λ s h. ground arith }

  IsUnopened-number :
      (key : String) (value : Option ℕ)
      → Keeps IsUnopened (set_number {W = Watched c.World} traced key value)
  IsUnopened-number key none = record { at = λ s h. h }
  IsUnopened-number key (some v) = record { at = λ s h. ground arith }

  IsUnopened-meta : Keeps IsUnopened (set_meta (watched c) traced meta task_id)
  unfolding set_meta
  IsUnopened-meta = search (keeps_rules, IsUnopened-text, IsUnopened-number) depth 12

  guarded_closes :
      (started : ℕ) (r : Outcome (Unit {0})) (s : Local (Watched c.World))
      → s.session_id ≡ none
      → IsTidy s
      → IsClosed
          (and_then r
            (λ _.
              try_finally
                (try_except
                  (attempt (watched c) traced meta task_id started)
                  (capture (watched c) traced meta task_id started))
                (cleanup (watched c) traced meta task_id))
            s).1
  guarded_closes started (return _) s h k =
      let result : Outcome TaskResult × Local (Watched c.World) =
        try_except (attempt (watched c) traced meta task_id started)
          (capture (watched c) traced meta task_id started) s in
      keep_keeps IsClosed result.0 (cleanup (watched c) traced meta task_id result.1)
        (cleanup_closes result.1 (guarded_keeps started s h k))
  guarded_closes started (raise e) s h k = tidy_end s h k

  -- On every path out of `_run_task`, its cancellation at any await included, the sessions that it
  -- opened are the sessions that it asked to delete.
  pub run_task-IsClosed :
      (s : Local (Watched c.World))
      → s.session_id ≡ none
      → IsClosed s
      → IsClosed (run_task (watched c) traced meta task_id s).1
  unfolding run_task
  run_task-IsClosed s h k =
      let s' : Local (Watched c.World) = (read (within_clock c.monotonic) s).1 in
      let met : Outcome (Unit {0}) × Local (Watched c.World) =
        set_meta (watched c) traced meta task_id s' in
      guarded_closes (c.monotonic s.world.inner).0 met.0 met.1 (IsUnopened-meta.at s' h)
        (set_meta-Keeps.at s' (IsTidy-start s h k))
