-- ===== src/MlflowReport/Rows/Counted.antt =====
-- mlflow_report.py, `span_rows` against `parse_traces`: the rows that are marked as counted.
use autobench.Prelude.{
  ◌≤◌, String, Bool, true, false, ◌&&◌, ◌≡◌, refl, Option, none, some, List, [], ◌∷◌, ◌==◌,
  count_if, select, arith,
}
use autobench.Prelude.Json.{Json, Fields, get_or, null, str}
use autobench.MlflowReport.Download.{dict_field}
use autobench.Prelude.Text.{begins}
use autobench.Prelude.Dict.{Dict}
use autobench.MlflowReport.Spans.{Span, agent_prefix, span_kind}
use autobench.MlflowReport.Spans.Kinds.{
  kind_chat, kind_tool, agent_not_root, chat_not_tool, chat_kind_not_tool,
}
use autobench.MlflowReport.Parse.{is_root, children_of}
use autobench.MlflowReport.Parse.Record.{Reading, ◌>>=◌, last_root}
use autobench.MlflowReport.Parse.Chats.{chat_under, tool_under, last_agent}
use autobench.MlflowReport.Rows.{
  SpanRow, Casts, counted_of, first_agent, first_root, by_id, make_row, part_of, span_row, each_row,
  rows_under,
}
use autobench.MlflowReport.Rows.Scalars.{OnSome}

abbrev pub is_counted : Option Bool → Bool
is_counted none = false
is_counted (some b) = b

-- A row of this kind that is marked as counted.
abbrev pub counted_row : String → SpanRow → Bool
counted_row kind r = r.kind == kind && is_counted r.counted

abbrev pub is_agent : {F : Type 0} → Span F → Bool
is_agent s = begins agent_prefix s.name

module _ {F : Type 0} (casts : Casts F) where
  counted_chat :
      (invoke : Option String) (s : Span F)
      → (span_kind s.name == "chat" && is_counted (counted_of casts invoke s)) ≡ chat_under invoke s
  unfolding counted_of
  counted_chat invoke s = ground (arith, kind_chat s.name)

  counted_tool :
      (invoke : Option String) (s : Span F)
      → (span_kind s.name == "tool" && is_counted (counted_of casts invoke s)) ≡ tool_under invoke s
  unfolding counted_of
  counted_tool invoke s =
      ground
        (arith, kind_chat s.name, kind_tool s.name, chat_not_tool s.name, chat_kind_not_tool s.name)

  make_row_counted :
      (task_id session_id : Json) (d : Dict (Span F)) (invoke : Option String) (s : Span F)
      (u q p : Fields)
      → (counted_row "chat" (make_row casts task_id session_id d invoke s u q p)
          ≡ chat_under invoke s)
        × (counted_row "tool" (make_row casts task_id session_id d invoke s u q p)
            ≡ tool_under invoke s)
  unfolding make_row
  make_row_counted task_id session_id d invoke s u q p =
      (counted_chat invoke s, counted_tool invoke s)

  -- The counted rows of each kind are those of the spans under the agent's.
  abbrev pub Agrees : Option String → List (Span F) → List SpanRow → Type 0
  Agrees invoke spans rows =
      (count_if (counted_row "chat") rows ≡ count_if (chat_under invoke) spans)
      × (count_if (counted_row "tool") rows ≡ count_if (tool_under invoke) spans)

  each_row-Agrees :
      (task_id session_id : Json) (d : Dict (Span F)) (invoke : Option String)
      (spans : List (Span F))
      → OnSome casts
          (Agrees invoke spans)
          (each_row casts (span_row casts task_id session_id d invoke) spans)
  unfolding each_row span_row count_if
  each_row-Agrees task_id session_id d invoke [] = (refl, refl)
  each_row-Agrees task_id session_id d invoke (s ∷ spans) =
      both (part_of casts "usage" _) (part_of casts "request" _) (part_of casts "response" _)
        (each_row casts (span_row casts task_id session_id d invoke) spans)
        (each_row-Agrees task_id session_id d invoke spans)
    where
      both :
          (u q p : Option Fields) (rest : Option (List SpanRow))
          → OnSome casts (Agrees invoke spans) rest
          → OnSome casts (Agrees invoke (s ∷ spans)) (
              (u >>= λ usage. q >>= λ request. p >>= λ response.
              some (make_row casts task_id session_id d invoke s usage request response))
              >>= λ r. rest >>= λ rows. some (r ∷ rows))
      both none q p rest h = tt
      both (some u) none p rest h = tt
      both (some u) (some q) none rest h = tt
      both (some u) (some q) (some p) none h = tt
      both (some u) (some q) (some p) (some rows) h =
          let (chat, tool) = make_row_counted task_id session_id d invoke s u q p in
          (rw (chat, h.0) refl, rw (tool, h.1) refl)

  pub rows_under_agree :
      (spans : List (Span F)) (root : Span F)
      → OnSome casts (Agrees (first_agent casts spans) spans) (rows_under casts spans root)
  unfolding rows_under
  rows_under_agree spans root =
      elim (dict_field "metadata" root.attributes)
        as (λ m. OnSome casts (Agrees (first_agent casts spans) spans) (
          m >>= λ meta.
          each_row casts
            (span_row casts (get_or "task_id" null meta) (get_or "session_id" (str "unknown") meta)
              (by_id casts [] spans) (first_agent casts spans))
            spans)) [ none ↦ tt | some meta ↦ each_row-Agrees _ _ _ _ spans ]

-- A test that no root span passes counts the same among the children.
module _ {F : Type 0} (reading : Reading F) where
  pub count-children_of :
      (test : Span F → Bool)
      → ((s : Span F) → test s ≡ true → is_root s ≡ false)
      → (spans : List (Span F)) → count_if test (children_of reading spans) ≡ count_if test spans
  unfolding children_of select count_if
  count-children_of test h [] = refl
  count-children_of test h (s ∷ spans) = ground (arith, h s, count-children_of test h spans)

  pub last_agent-children_of :
      (spans : List (Span F)) (id : Option String)
      → last_agent reading (children_of reading spans) id ≡ last_agent reading spans id
  unfolding children_of select
  last_agent-children_of [] id = refl
  last_agent-children_of (s ∷ spans) id = ground (
    arith,
    agent_not_root s.name,
    last_agent-children_of spans id,
    last_agent-children_of spans (some s.span_id),
  )

  last_agent_none :
      (spans : List (Span F)) (id : Option String)
      → count_if is_agent spans ≡ 0
      → last_agent reading spans id ≡ id
  unfolding count_if
  last_agent_none [] id h = refl
  last_agent_none (s ∷ spans) id h = ground (arith, last_agent_none spans id)

  -- With at most one agent span, the last is the first.
  pub last_agent_first :
      (casts : Casts F) (spans : List (Span F))
      → count_if is_agent spans ≤ 1
      → last_agent reading spans none ≡ first_agent casts spans
  unfolding count_if first_agent
  last_agent_first casts [] h = refl
  last_agent_first casts (s ∷ spans) h =
      ground (arith, last_agent_none spans (some s.span_id), last_agent_first casts spans)

  pub rootless :
      (casts : Casts F) (spans : List (Span F)) (acc : Option (Span F))
      → first_root casts spans ≡ none
      → last_root reading acc spans ≡ acc
  unfolding first_root last_root
  rootless casts [] acc h = refl
  rootless casts (s ∷ spans) acc h = ground (arith, rootless casts spans acc)
