-- ===== src/MlflowReport/Parse/Counters.antt =====
-- mlflow_report.py, `parse_traces`: what the counters of a trace's record count.
use autobench.Prelude.{ℕ, ◌≡◌, Option, none, some, List, count_if, arith}
use autobench.Prelude.Json.{Json, Fields}
use autobench.Models.Report.{MlflowTraceRecord}
use autobench.MlflowReport.Spans.{Span}
use autobench.MlflowReport.Download.{dict_field}
use autobench.MlflowReport.Parse.Record.{Reading, ◌>>=◌, new_record, set_infra, first_model}
use autobench.MlflowReport.Parse.{measure, children_of, parse_root, fallbacks}
use autobench.MlflowReport.Parse.Chats.{chat_under, tool_under, Counts, last_agent, measure_counts}
use autobench.MlflowReport.Parse.Pods.{fallbacks_counts, set_infra_counts}

module _ {F : Type 0} (reading : Reading F) where
  new_record_counts :
      (root : Span F) (meta : Fields) (model : Json)
      → Counts 0 0 (new_record reading root meta model)
  unfolding new_record
  new_record_counts root meta model = ground arith

  and_counts :
      (n m n' m' : ℕ) (o : Option (MlflowTraceRecord F))
      (f : MlflowTraceRecord F → Option (MlflowTraceRecord F))
      → Counts n m o
      → ((r : MlflowTraceRecord F) → r.llm_count ≡ n → r.tool_count ≡ m → Counts n' m' (f r))
      → Counts n' m' (o >>= f)
  and_counts n m n' m' none f c go = tt
  and_counts n m n' m' (some r) f c go = go r c.0 c.1

  -- The readings of `parse_root`, one after another.
  chain_counts :
      (n m : ℕ) (meta : Option Fields) (model : Option Json)
      (make : Fields → Json → Option (MlflowTraceRecord F))
      (timed infra : MlflowTraceRecord F → Option (MlflowTraceRecord F))
      (whole : Fields → MlflowTraceRecord F → Option (MlflowTraceRecord F))
      → ((f : Fields) (j : Json) → Counts 0 0 (make f j))
      → ((r : MlflowTraceRecord F) → r.llm_count ≡ 0 → r.tool_count ≡ 0 → Counts n m (timed r))
      → ((f : Fields) (r : MlflowTraceRecord F)
          → r.llm_count ≡ n
          → r.tool_count ≡ m
          → Counts n m (whole f r))
      → ((r : MlflowTraceRecord F) → r.llm_count ≡ n → r.tool_count ≡ m → Counts n m (infra r))
      → Counts n m (
          meta >>= λ f.
          model >>= λ j. make f j >>= λ new. timed new >>= λ measured. whole f measured >>= infra)
  chain_counts n m none model make timed infra whole a b c d = tt
  chain_counts n m (some f) none make timed infra whole a b c d = tt
  chain_counts n m (some f) (some j) make timed infra whole a b c d =
      and_counts 0 0 n m (make f j) (λ new. timed new >>= λ measured. whole f measured >>= infra)
        (a f j)
        λ new h k.
          and_counts n m n m (timed new) (λ measured. whole f measured >>= infra) (b new h k)
            λ measured h k. and_counts n m n m (whole f measured) infra (c f measured h k) d

  -- If a record is made of a trace, its `llm_count` and `tool_count` are the numbers of the chat spans
  -- and of the tool spans among the children whose parent is the last agent span.
  pub parse_root_counts :
      (spans : List (Span F)) (root : Span F)
      → Counts
          (count_if
            (chat_under (last_agent reading (children_of reading spans) none))
            (children_of reading spans))
          (count_if
            (tool_under (last_agent reading (children_of reading spans) none))
            (children_of reading spans))
          (parse_root reading spans root)
  unfolding parse_root
  parse_root_counts spans root =
      chain_counts _ _ (dict_field "metadata" root.attributes)
        (first_model reading (children_of reading spans)) (new_record reading root)
        (measure reading (children_of reading spans)) (set_infra reading root.attributes)
        (λ meta. fallbacks reading meta root.attributes) (new_record_counts root)
        (measure_counts reading (children_of reading spans))
        (λ meta r. fallbacks_counts reading meta root.attributes _ _ r)
        (λ r. set_infra_counts reading root.attributes _ _ r)
