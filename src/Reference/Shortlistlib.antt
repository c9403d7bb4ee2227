-- ===== src/Reference/Shortlistlib.antt =====
-- reference/shortlistlib.py: the split of a task's chat spans into tool-selection calls and the assistant
-- calls that they serve. A span is a row of `span_report.ndjson`, with the entries that are read.
pub mod Conserved
use Prim.Native.Char.{Char, code}
use autobench.Prelude.{
  ℕ, ◌+◌, ◌*◌, String, ◌⧺◌, Bool, true, false, not, ◌&&◌, ◌||◌, Option, none, some, List, [], ◌∷◌,
  ◌++◌, ◌==◌, select, eqb, ltb, if◌then◌else◌,
}

pub record Span : Type 0 where
  pub task_id : Option String
  pub kind : Option String
  pub request_max_tokens : Option ℕ
  pub status_code : Option String
  pub start_time : Option String
  pub input_tokens : Option ℕ
  pub output_tokens : Option ℕ

-- The counters under `KEYS`.
pub record Tally : Type 0 where
  pub tasks : ℕ
  pub sel : ℕ
  pub asst : ℕ
  pub sel_in : ℕ
  pub sel_out : ℕ
  pub as_in : ℕ
  pub as_out : ℕ

abbrev pub new_acc : Tally
new_acc = record { tasks = 0; sel = 0; asst = 0; sel_in = 0; sel_out = 0; as_in = 0; as_out = 0 }

abbrev pub is_text : String → Option String → Bool
is_text text none = false
is_text text (some other) = other == text

abbrev is_one : Option ℕ → Bool
is_one none = false
is_one (some n) = eqb n 1

unfoldable pub is_chat : Span → Bool
is_chat s = is_text "chat" s.kind

-- What `roles` keeps of a task's spans.
unfoldable pub is_usable : Span → Bool
is_usable s =
    (is_text "chat" s.kind || is_text "tool" s.kind)
    && not (is_one s.request_max_tokens)
    && not (is_text "chat" s.kind && is_text "ERROR" s.status_code)

-- `s <= t` of texts, by the codes of their characters
unfoldable pub le_text : String → String → Bool
le_text String.[] t = true
le_text (String.◌∷◌ c s) String.[] = false
le_text (String.◌∷◌ c s) (String.◌∷◌ d t) =
    let later = le_text s t in
    if ltb (code c) (code d) then true else eqb (code c) (code d) && later

abbrev or_empty : Option String → String
or_empty none = ""
or_empty (some text) = text

-- `sorted(spans, key=lambda s: s.get("start_time") or "")`, which keeps the order of equal keys.
unfoldable pub insert : Span → List Span → List Span
insert s [] = s ∷ []
insert s (t ∷ spans) =
    let later = insert s spans in
    if le_text (or_empty s.start_time) (or_empty t.start_time) then s ∷ t ∷ spans else t ∷ later

unfoldable pub by_start : List Span → List Span
by_start [] = []
by_start (s ∷ spans) = insert s (by_start spans)

pub data Role : Type 0 where
  selection : Role
  assistant : Role

-- The role of a chat span, from the spans after it.
unfoldable pub role_before : List Span → Role
role_before [] = assistant
role_before (next ∷ _) = if is_chat next then selection else assistant

unfoldable pub roles_of : List Span → List (Span × Role)
roles_of [] = []
roles_of (s ∷ rest) =
    let others = roles_of rest in if is_chat s then (s, role_before rest) ∷ others else others

unfoldable pub roles : List Span → List (Span × Role)
roles spans = roles_of (by_start (select is_usable spans))

-- `d.get(key) or 0`
abbrev pub or_zero : Option ℕ → ℕ
or_zero none = 0
or_zero (some n) = n

unfoldable pub book_call : Span × Role → Tally → Tally
book_call (s, selection) acc = record acc {
  sel = acc.sel + 1;
  sel_in = acc.sel_in + or_zero s.input_tokens;
  sel_out = acc.sel_out + or_zero s.output_tokens;
}
book_call (s, assistant) acc = record acc {
  asst = acc.asst + 1;
  as_in = acc.as_in + or_zero s.input_tokens;
  as_out = acc.as_out + or_zero s.output_tokens;
}

unfoldable pub book_all : List (Span × Role) → Tally → Tally
book_all [] acc = acc
book_all (r ∷ rs) acc = book_all rs (book_call r acc)

-- A task without a chat span is no task.
unfoldable pub tally_roles : List (Span × Role) → Tally → Tally
tally_roles [] acc = acc
tally_roles (r ∷ rs) acc = book_all (r ∷ rs) (record acc { tasks = acc.tasks + 1 })

unfoldable pub tally : List Span → Tally → Tally
tally spans acc = tally_roles (roles spans) acc

-- A task's rows, by its id, which may be none.
abbrev pub Groups : Type 0
Groups = List (Option String × List Span)

abbrev same_task : Option String → Option String → Bool
same_task none none = true
same_task (some a) (some b) = a == b
same_task _ _ = false

-- `by_task.setdefault(s.get("task_id"), []).append(s)`
unfoldable pub add_row : Span → Groups → Groups
add_row s [] = (s.task_id, s ∷ []) ∷ []
add_row s ((task_id, spans) ∷ groups) =
    let later = add_row s groups in
    if same_task task_id s.task_id
    then (task_id, spans ++ s ∷ []) ∷ groups
    else (task_id, spans) ∷ later

unfoldable pub by_task : List Span → Groups → Groups
by_task [] groups = groups
by_task (s ∷ rows) groups = by_task rows (add_row s groups)

unfoldable pub tally_groups : Groups → Tally → Tally
tally_groups [] acc = acc
tally_groups ((_, spans) ∷ groups) acc = tally_groups groups (tally spans acc)

unfoldable pub tally_rows : List Span → Tally → Tally
tally_rows rows acc = tally_groups (by_task rows []) acc

unfoldable pub plus : Tally → Tally → Tally
plus out a = record {
  tasks = out.tasks + a.tasks;
  sel = out.sel + a.sel;
  asst = out.asst + a.asst;
  sel_in = out.sel_in + a.sel_in;
  sel_out = out.sel_out + a.sel_out;
  as_in = out.as_in + a.as_in;
  as_out = out.as_out + a.as_out;
}

unfoldable pub merge_into : List Tally → Tally → Tally
merge_into [] out = out
merge_into (a ∷ accs) out = merge_into accs (plus out a)

unfoldable pub merge : List Tally → Tally
merge accs = merge_into accs new_acc

-- `percent part whole` is `f"{round(100 * part / whole)}%"`.
module _ (percent : ℕ → ℕ → String) where
  unfoldable pub pct : ℕ → ℕ → String
  pct part whole = if eqb whole 0 then "0%" else percent part whole

  unfoldable pub share_in : Tally → String
  share_in a = pct a.sel_in (a.sel_in + a.as_in)

  unfoldable pub share_out : Tally → String
  share_out a = pct a.sel_out (a.sel_out + a.as_out)
