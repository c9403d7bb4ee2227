-- ===== src/MlflowReport/Rows/Agreement.antt =====
-- mlflow_report.py: the rows of a trace, beside the counters of its record.
use autobench.Prelude.{
  ◌≤◌, String, true, false, ◌≡◌, refl, sym, ◌∙◌, Option, none, some, List, [], count_if, arith,
}
use autobench.Models.Report.{MlflowTraceRecord}
use autobench.MlflowReport.Spans.{Span, Trace}
use autobench.MlflowReport.Spans.Kinds.{chat_not_root, tool_not_root}
use autobench.MlflowReport.Parse.{is_root, parse_root, parse_trace}
use autobench.MlflowReport.Parse.Record.{Reading, ◌>>=◌, last_root}
use autobench.MlflowReport.Parse.Chats.{chat_under, tool_under, Counts}
use autobench.MlflowReport.Parse.Counters.{parse_root_counts}
use autobench.MlflowReport.Rows.{SpanRow, Casts, first_agent, first_root, rows_under, trace_rows}
use autobench.MlflowReport.Rows.Scalars.{OnSome}
use autobench.MlflowReport.Rows.Counted.{
  counted_row, is_agent, Agrees, rows_under_agree, count-children_of, last_agent-children_of,
  last_agent_first, rootless,
}

module _ {F : Type 0} (reading : Reading F) (casts : Casts F) where
  chat_not_is_root : (id : Option String) (s : Span F) → chat_under id s ≡ true → is_root s ≡ false
  chat_not_is_root id s h = ground (arith, chat_not_root s.name)

  tool_not_is_root : (id : Option String) (s : Span F) → tool_under id s ≡ true → is_root s ≡ false
  tool_not_is_root id s h = ground (arith, tool_not_root s.name)

  -- The counters of a record as those of all the spans under the first agent.
  first_counts :
      (spans : List (Span F)) (root : Span F)
      → count_if is_agent spans ≤ 1
      → Counts
          (count_if (chat_under (first_agent casts spans)) spans)
          (count_if (tool_under (first_agent casts spans)) spans)
          (parse_root reading spans root)
  first_counts spans root h =
      let id = last_agent-children_of reading spans none ∙ last_agent_first reading casts spans h in
      let counts = parse_root_counts reading spans root in
      let c =
        count-children_of reading (chat_under (first_agent casts spans))
          (chat_not_is_root (first_agent casts spans)) spans in
      let t =
        count-children_of reading (tool_under (first_agent casts spans))
          (tool_not_is_root (first_agent casts spans)) spans in
      rw (← c, ← t, ← id) counts

  agree_by :
      (invoke : Option String) (spans : List (Span F)) (o : Option (List SpanRow))
      (p : Option (MlflowTraceRecord F)) (rows : List SpanRow) (r : MlflowTraceRecord F)
      → OnSome casts (Agrees casts invoke spans) o
      → Counts (count_if (chat_under invoke) spans) (count_if (tool_under invoke) spans) p
      → o ≡ some rows
      → (p >>= λ r. some (some r)) ≡ some (some r)
      → (count_if (counted_row "chat") rows ≡ r.llm_count)
        × (count_if (counted_row "tool") rows ≡ r.tool_count)
  agree_by invoke spans none p rows r a c e f = cc
  agree_by invoke spans (some rows') none rows r a c e f = cc
  agree_by invoke spans (some rows') (some r') rows r a c e f =
      let same_rows : rows' ≡ rows = cc in
      let same : r' ≡ r = cc in rw (← same_rows, ← same) (a.0 ∙ sym c.0, a.1 ∙ sym c.1)

  -- If a trace has at most one agent span, and its rows and its record are both made, then the rows of
  -- kind "chat" that are marked as counted are as many as `llm_count` says, and those of kind "tool" as
  -- many as `tool_count` says.
  pub rows_agree :
      (trace : Trace F) (rows : List SpanRow) (r : MlflowTraceRecord F)
      → count_if is_agent trace.spans ≤ 1
      → trace_rows casts trace ≡ some rows
      → parse_trace reading trace ≡ some (some r)
      → (count_if (counted_row "chat") rows ≡ r.llm_count)
        × (count_if (counted_row "tool") rows ≡ r.tool_count)
  unfolding trace_rows parse_trace
  rows_agree trace rows r one made parsed =
      rooted (first_root casts trace.spans) (last_root reading none trace.spans)
        (rootless reading casts trace.spans none) made parsed
    where
      rooted :
          (first last : Option (Span F))
          → (first ≡ none → last ≡ none)
          → elim first [ none ↦ some [] | some root ↦ rows_under casts trace.spans root ]
            ≡ some rows
          → elim last [
            | none ↦ some none
            | some root ↦ parse_root reading trace.spans root >>= λ r. some (some r)
          ]
            ≡ some (some r)
          → (count_if (counted_row "chat") rows ≡ r.llm_count)
            × (count_if (counted_row "tool") rows ≡ r.tool_count)
      rooted none none h a b = cc
      rooted none (some root) h a b = let e = h refl in cc
      rooted (some root) none h a b = cc
      rooted (some first) (some root) h a b =
          agree_by (first_agent casts trace.spans) trace.spans (rows_under casts trace.spans first)
            (parse_root reading trace.spans root) rows r (rows_under_agree casts trace.spans first)
            (first_counts trace.spans root one) a b
