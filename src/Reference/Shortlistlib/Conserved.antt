-- ===== src/Reference/Shortlistlib/Conserved.antt =====
-- reference/shortlistlib.py: what the counters of a leg add up to.
use autobench.Prelude.{
  ℕ, ◌+◌, ◌&&◌, List, [], ◌∷◌, ◌++◌, ◌≡◌, refl, arith, select, ◌∙◌, if◌then◌else◌, Bool-cases, inl,
  inr,
}
use autobench.Reference.Shortlistlib.{
  Span, Tally, Role, selection, assistant, Groups, is_chat, is_usable, insert, by_start,
  role_before, roles_of, roles, or_zero, book_call, book_all, tally_roles, tally, add_row, by_task,
  tally_groups, tally_rows,
}

-- What the chat spans among the usable ones weigh.
abbrev pub usable_chats : (Span → ℕ) → List Span → ℕ
usable_chats weight [] = 0
usable_chats weight (s ∷ spans) =
    (if is_usable s && is_chat s then weight s else 0) + usable_chats weight spans

-- The same without the test for usable ones.
abbrev all_chats : (Span → ℕ) → List Span → ℕ
all_chats weight [] = 0
all_chats weight (s ∷ spans) = (if is_chat s then weight s else 0) + all_chats weight spans

all_chats-select :
    (weight : Span → ℕ) (spans : List Span)
    → all_chats weight (select is_usable spans) ≡ usable_chats weight spans
unfolding select
all_chats-select weight [] = refl
all_chats-select weight (s ∷ spans) = ground (arith, all_chats-select weight spans)

all_chats-insert :
    (weight : Span → ℕ) (s : Span) (spans : List Span)
    → all_chats weight (insert s spans) ≡ all_chats weight (s ∷ spans)
unfolding insert
all_chats-insert weight s [] = refl
all_chats-insert weight s (t ∷ spans) = ground (arith, all_chats-insert weight s spans)

all_chats-by_start :
    (weight : Span → ℕ) (spans : List Span)
    → all_chats weight (by_start spans) ≡ all_chats weight spans
unfolding by_start
all_chats-by_start weight [] = refl
all_chats-by_start weight (s ∷ spans) =
    omega (arith, all_chats-insert weight s (by_start spans), all_chats-by_start weight spans)

-- What is booked of two kinds together, above what was.
pub record Adds (calls ins outs : ℕ) (before after : Tally) : Type 0 where
  pub all_calls : after.sel + after.asst ≡ before.sel + before.asst + calls
  pub all_in : after.sel_in + after.as_in ≡ before.sel_in + before.as_in + ins
  pub all_out : after.sel_out + after.as_out ≡ before.sel_out + before.as_out + outs

abbrev pub each_call : Span → ℕ
each_call s = 1

abbrev pub ins : Span → ℕ
ins s = or_zero s.input_tokens

abbrev pub outs : Span → ℕ
outs s = or_zero s.output_tokens

book_call-Adds :
    (s : Span) (r : Role) (acc : Tally) → Adds 1 (ins s) (outs s) acc (book_call (s, r) acc)
unfolding book_call
book_call-Adds s selection acc = record {
  all_calls = omega arith;
  all_in = omega arith;
  all_out = omega arith;
}
book_call-Adds s assistant acc = record {
  all_calls = omega arith;
  all_in = omega arith;
  all_out = omega arith;
}

Adds-trans :
    {a b c a' b' c' : ℕ} {t u v : Tally}
    → Adds a b c t u
    → Adds a' b' c' u v
    → Adds (a + a') (b + b') (c + c') t v
Adds-trans p q = record {
  all_calls = omega (arith, p.all_calls, q.all_calls);
  all_in = omega (arith, p.all_in, q.all_in);
  all_out = omega (arith, p.all_out, q.all_out);
}

Adds-none : {a b c : ℕ} {t u : Tally} → Adds a b c t u → Adds (0 + a) (0 + b) (0 + c) t u
Adds-none p = record {
  all_calls = omega (arith, p.all_calls);
  all_in = omega (arith, p.all_in);
  all_out = omega (arith, p.all_out);
}

book_all-Adds :
    (spans : List Span) (acc : Tally)
    → Adds
        (all_chats each_call spans)
        (all_chats ins spans)
        (all_chats outs spans)
        acc
        (book_all (roles_of spans) acc)
unfolding book_all roles_of
book_all-Adds [] acc = record {
  all_calls = omega arith;
  all_in = omega arith;
  all_out = omega arith;
}
book_all-Adds (s ∷ rest) acc = elim (Bool-cases (is_chat s)) [
  | inl e ↦ rw e (
      Adds-trans (book_call-Adds s (role_before rest) acc)
        (book_all-Adds rest (book_call (s, role_before rest) acc)))
  | inr e ↦ rw e (Adds-none (book_all-Adds rest acc))
]

tally_roles-Adds :
    (a b c : ℕ) (rs : List (Span × Role)) (acc : Tally)
    → ((t : Tally) → Adds a b c t (book_all rs t))
    → Adds a b c acc (tally_roles rs acc)
unfolding tally_roles book_all
tally_roles-Adds a b c [] acc h = h acc
tally_roles-Adds a b c (r ∷ rs) acc h =
    let counted = h (record acc { tasks = acc.tasks + 1 }) in
    record { all_calls = counted.all_calls; all_in = counted.all_in; all_out = counted.all_out }

sorted_chats :
    (weight : Span → ℕ) (spans : List Span)
    → all_chats weight (by_start (select is_usable spans)) ≡ usable_chats weight spans
sorted_chats weight spans =
    all_chats-by_start weight (select is_usable spans) ∙ all_chats-select weight spans

-- A task's spans, in any order, add what its usable chat spans weigh.
tally-Adds :
    (spans : List Span) (acc : Tally)
    → Adds
        (usable_chats each_call spans)
        (usable_chats ins spans)
        (usable_chats outs spans)
        acc
        (tally spans acc)
unfolding tally roles
tally-Adds spans acc =
    let seq = by_start (select is_usable spans) in
    rw (← sorted_chats each_call spans) (
      rw (← sorted_chats ins spans) (
        rw (← sorted_chats outs spans) (
          tally_roles-Adds (all_chats each_call seq) (all_chats ins seq) (all_chats outs seq)
            (roles_of seq) acc (book_all-Adds seq))))

usable_chats-append :
    (weight : Span → ℕ) (spans more : List Span)
    → usable_chats weight (spans ++ more) ≡ usable_chats weight spans + usable_chats weight more
usable_chats-append weight [] more = omega arith
usable_chats-append weight (s ∷ spans) more = omega (arith, usable_chats-append weight spans more)

abbrev group_chats : (Span → ℕ) → Groups → ℕ
group_chats weight [] = 0
group_chats weight ((_, spans) ∷ groups) = usable_chats weight spans + group_chats weight groups

group_chats-add_row :
    (weight : Span → ℕ) (s : Span) (groups : Groups)
    → group_chats weight (add_row s groups)
      ≡ group_chats weight groups + usable_chats weight (s ∷ [])
unfolding add_row
group_chats-add_row weight s [] = omega arith
group_chats-add_row weight s ((task_id, spans) ∷ groups) =
    ground (arith, group_chats-add_row weight s groups, usable_chats-append weight spans (s ∷ []))

group_chats-by_task :
    (weight : Span → ℕ) (rows : List Span) (groups : Groups)
    → group_chats weight (by_task rows groups)
      ≡ group_chats weight groups + usable_chats weight rows
unfolding by_task
group_chats-by_task weight [] groups = omega arith
group_chats-by_task weight (s ∷ rows) groups =
    omega (
      arith,
      group_chats-by_task weight rows (add_row s groups),
      group_chats-add_row weight s groups,
    )

tally_groups-Adds :
    (groups : Groups) (acc : Tally)
    → Adds
        (group_chats each_call groups)
        (group_chats ins groups)
        (group_chats outs groups)
        acc
        (tally_groups groups acc)
unfolding tally_groups
tally_groups-Adds [] acc = record {
  all_calls = omega arith;
  all_in = omega arith;
  all_out = omega arith;
}
tally_groups-Adds ((_, spans) ∷ groups) acc =
    Adds-trans (tally-Adds spans acc) (tally_groups-Adds groups (tally spans acc))

-- However the rows of a leg are ordered and spread over its tasks, the two kinds of calls together grow
-- by the number of the usable chat spans, and their input and output tokens by those of these spans.
pub tally_rows-Adds :
    (rows : List Span) (acc : Tally)
    → Adds
        (usable_chats each_call rows)
        (usable_chats ins rows)
        (usable_chats outs rows)
        acc
        (tally_rows rows acc)
unfolding tally_rows
tally_rows-Adds rows acc =
    let booked = tally_groups-Adds (by_task rows []) acc in
    record {
      all_calls = omega (arith, booked.all_calls, group_chats-by_task each_call rows []);
      all_in = omega (arith, booked.all_in, group_chats-by_task ins rows []);
      all_out = omega (arith, booked.all_out, group_chats-by_task outs rows []);
    }
