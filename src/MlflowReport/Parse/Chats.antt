-- ===== src/MlflowReport/Parse/Chats.antt =====
-- mlflow_report.py, `parse_traces`: the two counters of a record, `llm_count` and `tool_count`.
use autobench.Prelude.{
  ℕ, ◌+◌, String, Bool, true, false, ◌&&◌, ◌≡◌, refl, ap, ◌∙◌, Option, none, some, List, [], ◌∷◌,
  length, length-append, count_if, arith, if◌then◌else◌,
}
use autobench.Prelude.Json.{Fields}
use autobench.Models.Report.{MlflowTraceRecord}
use autobench.MlflowReport.Spans.{Span, agent_prefix, is_chat, is_tool}
use autobench.Prelude.Text.{begins}
use autobench.MlflowReport.Spans.Kinds.{chat_not_tool, agent_not_phase}
use autobench.MlflowReport.Parse.Record.{Reading, ◌>>=◌}
use autobench.MlflowReport.Parse.{
  Phases, Inner, same_text, phase_step, phases, inner_step, inner, add_after, add_chat, usage_of,
  tokens_of, chats, first_obs, overhead, measure, observed_at, is_after,
}

-- A chat or tool span under the agent's span of this id.
abbrev pub chat_under : {F : Type 0} → Option String → Span F → Bool
chat_under invoke_span_id s = same_text s.parent_id invoke_span_id && is_chat s.name

abbrev pub tool_under : {F : Type 0} → Option String → Span F → Bool
tool_under invoke_span_id s = same_text s.parent_id invoke_span_id && is_tool s.name

-- What a reading that may raise returns has these counters.
abbrev pub Counts : {F : Type 0} → ℕ → ℕ → Option (MlflowTraceRecord F) → Type 0
Counts n m none = Unit
Counts n m (some r) = (r.llm_count ≡ n) × (r.tool_count ≡ m)

module _ {F : Type 0} (reading : Reading F) where
  inner_step_counts :
      (invoke : Option String) (s : Span F) (i : Inner F)
      → (length (inner_step reading invoke s i).chat_spans
          ≡ length i.chat_spans + (if chat_under invoke s then 1 else 0))
        × ((inner_step reading invoke s i).trace_record.tool_count
            ≡ i.trace_record.tool_count + (if tool_under invoke s then 1 else 0))
        × ((inner_step reading invoke s i).trace_record.llm_count ≡ i.trace_record.llm_count)
  unfolding inner_step is_tool
  inner_step_counts invoke s i =
      let chat = chat_not_tool s.name in ground (arith, length-append i.chat_spans (s ∷ []), chat)

  inner_counts :
      (invoke : Option String) (children : List (Span F)) (i : Inner F)
      → (length (inner reading invoke children i).chat_spans
          ≡ length i.chat_spans + count_if (chat_under invoke) children)
        × ((inner reading invoke children i).trace_record.tool_count
            ≡ i.trace_record.tool_count + count_if (tool_under invoke) children)
        × ((inner reading invoke children i).trace_record.llm_count ≡ i.trace_record.llm_count)
  unfolding inner count_if
  inner_counts invoke [] i = (omega arith, omega arith, refl)
  inner_counts invoke (s ∷ children) i =
      let (c, t, l) = inner_step_counts invoke s i in
      let (cs, ts, ls) = inner_counts invoke children (inner_step reading invoke s i) in
      (omega (arith, c, cs), omega (arith, t, ts), ls ∙ l)

  phase_step_counts :
      (s : Span F) (p : Phases F)
      → ((phase_step reading s p).trace_record.llm_count ≡ p.trace_record.llm_count)
        × ((phase_step reading s p).trace_record.tool_count ≡ p.trace_record.tool_count)
  unfolding phase_step
  phase_step_counts s p = ground arith

  phases_counts :
      (children : List (Span F)) (p : Phases F)
      → ((phases reading children p).trace_record.llm_count ≡ p.trace_record.llm_count)
        × ((phases reading children p).trace_record.tool_count ≡ p.trace_record.tool_count)
  unfolding phases
  phases_counts [] p = (refl, refl)
  phases_counts (s ∷ children) p =
      let (l, t) = phase_step_counts s p in
      let (ls, ts) = phases_counts children (phase_step reading s p) in (ls ∙ l, ts ∙ t)

  add_counts :
      (after : Bool) (input output : ℕ) (latency : F) (r : MlflowTraceRecord F)
      → ((add_after reading after latency (add_chat reading input output latency r)).llm_count
          ≡ r.llm_count + 1)
        × ((add_after reading after latency (add_chat reading input output latency r)).tool_count
            ≡ r.tool_count)
  unfolding add_after add_chat
  add_counts true input output latency r = (refl, refl)
  add_counts false input output latency r = (refl, refl)

  Counts-bind :
      {A : Type 0} (n m : ℕ) (o : Option A) (f : A → Option (MlflowTraceRecord F))
      → ((a : A) → Counts n m (f a))
      → Counts n m (o >>= f)
  Counts-bind n m none f h = tt
  Counts-bind n m (some a) f h = h a

  -- One chat span, before the others.
  chat_counts :
      (after : Bool) (latency : F) (usage : Option Fields) (input output : Fields → Option ℕ)
      (more : MlflowTraceRecord F → Option (MlflowTraceRecord F)) (r : MlflowTraceRecord F)
      (n m : ℕ)
      → ((r' : MlflowTraceRecord F)
          → r'.llm_count ≡ r.llm_count + 1
          → r'.tool_count ≡ r.tool_count
          → Counts n m (more r'))
      → Counts n m (
          usage >>= λ u. input u >>= λ i.
          output u >>= λ o. more (add_after reading after latency (add_chat reading i o latency r)))
  chat_counts after latency none input output more r n m go = tt
  chat_counts after latency (some u) input output more r n m go = read (input u) (output u)
    where
      read :
          (i o : Option ℕ)
          → Counts n m (
              i >>= λ i.
              o >>= λ o. more (add_after reading after latency (add_chat reading i o latency r)))
      read none o = tt
      read (some i) none = tt
      read (some i) (some o) = let (l, t) = add_counts after i o latency r in go _ l t

  chats_counts :
      (t_obs : Option F) (spans : List (Span F)) (r : MlflowTraceRecord F) (n m : ℕ)
      → r.llm_count + length spans ≡ n
      → r.tool_count ≡ m
      → Counts n m (chats reading t_obs spans r)
  unfolding chats
  chats_counts t_obs [] r n m h k = (omega arith, k)
  chats_counts t_obs (s ∷ spans) r n m h k =
      chat_counts (is_after reading t_obs s.start_time) (reading.seconds s.latency_ms)
        (usage_of reading s) (tokens_of reading "input_tokens") (tokens_of reading "output_tokens")
        (chats reading t_obs spans) r n m
        (λ r' l t. chats_counts t_obs spans r' n m (omega (arith, l, h)) (t ∙ k))

  first_obs_counts :
      (a b : Option String) (r : MlflowTraceRecord F)
      → ((first_obs reading a b r).llm_count ≡ r.llm_count)
        × ((first_obs reading a b r).tool_count ≡ r.tool_count)
  unfolding first_obs
  first_obs_counts a b r = ground arith

  overhead_counts :
      (r : MlflowTraceRecord F)
      → ((overhead reading r).llm_count ≡ r.llm_count)
        × ((overhead reading r).tool_count ≡ r.tool_count)
  unfolding overhead
  overhead_counts r = ground arith

  done_counts :
      (a b : Option String) (n m : ℕ) (o : Option (MlflowTraceRecord F))
      → Counts n m o
      → Counts n m (o >>= λ r. some (overhead reading (first_obs reading a b r)))
  done_counts a b n m none h = tt
  done_counts a b n m (some r) (l, t) =
      let (fl, ft) = first_obs_counts a b r in
      let (ol, ot) = overhead_counts (first_obs reading a b r) in (ol ∙ (fl ∙ l), ot ∙ (ft ∙ t))

  -- The id of the last agent's span.
  abbrev pub last_agent : List (Span F) → Option String → Option String
  last_agent [] id = id
  last_agent (s ∷ children) id =
      last_agent children (if begins agent_prefix s.name then some s.span_id else id)

  phase_step_agent :
      (s : Span F) (p : Phases F)
      → (phase_step reading s p).invoke_span_id
        ≡ (if begins agent_prefix s.name then some s.span_id else p.invoke_span_id)
  unfolding phase_step
  phase_step_agent s p = ground (arith, agent_not_phase s.name)

  phases_agent :
      (children : List (Span F)) (p : Phases F)
      → (phases reading children p).invoke_span_id ≡ last_agent children p.invoke_span_id
  unfolding phases
  phases_agent [] p = refl
  phases_agent (s ∷ children) p =
      phases_agent children (phase_step reading s p)
      ∙ ap (last_agent children) (phase_step_agent s p)

  pub measure_counts :
      (children : List (Span F)) (new : MlflowTraceRecord F)
      → new.llm_count ≡ 0
      → new.tool_count ≡ 0
      → Counts
          (count_if (chat_under (last_agent children none)) children)
          (count_if (tool_under (last_agent children none)) children)
          (measure reading children new)
  unfolding measure
  measure_counts children new h k =
      let p =
        phases reading children
          (record { trace_record = new; invoke_start = none; invoke_span_id = none }) in
      let (pl, pt) =
        phases_counts children
          (record { trace_record = new; invoke_start = none; invoke_span_id = none }) in
      let i =
        inner reading p.invoke_span_id children
          (record { trace_record = p.trace_record; initial_obs_start = none; chat_spans = [] }) in
      let (ic, it, il) =
        inner_counts p.invoke_span_id children
          (record { trace_record = p.trace_record; initial_obs_start = none; chat_spans = [] }) in
      let agent =
        phases_agent children
          (record { trace_record = new; invoke_start = none; invoke_span_id = none }) in
      done_counts p.invoke_start i.initial_obs_start _ _ _ (
        rw (← agent) (
          chats_counts (observed_at reading i.initial_obs_start) i.chat_spans i.trace_record _ _
            (omega (arith, ic, il, pl, h)) (omega (arith, it, pt, k))))
