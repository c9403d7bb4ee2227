-- ===== src/MlflowReport/Parse/Record.antt =====
-- mlflow_report.py, `parse_traces`: the record of a trace before its timings, and the pods' metrics.
use autobench.Prelude.{
  ℕ, String, Bool, true, false, Option, none, some, List, [], ◌∷◌, ◌==◌, if◌then◌else◌,
}
use autobench.Prelude.Json.{Json, Fields, null, number, str, object, end, field, get_or, truth}
use autobench.Models.Report.{MlflowTraceRecord}
use autobench.MlflowReport.Spans.{Span, root_span, agent_prefix}
use autobench.MlflowReport.Download.{dict_field}
use autobench.Prelude.Text.{begins}

-- What the parser does with numbers: `int`, `float` and the checks of the model's fields give none
-- where they raise, and `instant` where `datetime.fromisoformat` does.
pub record Reading (F : Type 0) : Type 0 where
  pub zero_f : F
  pub add : F → F → F
  pub sub : F → F → F
  pub max : F → F → F
  pub is_positive : F → Bool
  pub is_zero_f : F → Bool
  pub at_least : F → F → Bool
  pub seconds : F → F
  pub int_of : Json → Option ℕ
  pub float_of : Json → Option F
  pub text_of : Json → Option String
  pub bool_of : Json → Option Bool
  pub is_zero : String → Bool
  pub instant : String → Option F

infixl 5 ◌>>=◌
abbrev pub ◌>>=◌ : {A B : Type 0} → Option A → (A → Option B) → Option B
none >>= f = none
some a >>= f = f a

-- A field that may be null.
abbrev pub or_none : {A : Type 0} → (Json → Option A) → Json → Option (Option A)
or_none read null = some none
or_none read value = read value >>= λ a. some (some a)

module _ {F : Type 0} (reading : Reading F) where
  -- `value or default`
  abbrev pub or_json : Json → Json → Json
  or_json value default = if truth reading.is_zero value then value else default

  -- The root is the last span of its name, and the others are the children.
  unfoldable pub last_root : Option (Span F) → List (Span F) → Option (Span F)
  last_root root [] = root
  last_root root (s ∷ spans) = last_root (if s.name == root_span then some s else root) spans

  abbrev legacy_model : Span F → Option Json
  legacy_model s = dict_field "llm" s.attributes >>= λ llm.
      some (or_json (get_or "model_name" null llm) (str "unknown"))

  unfoldable pub model_of : Span F → Option Json
  model_of s = do
    gen_ai ← dict_field "gen_ai" s.attributes
    request ← dict_field "request" gen_ai
    if truth reading.is_zero (get_or "model" null request)
        then some (get_or "model" null request)
        else legacy_model s

  -- The model of the first `invoke_agent` span.
  unfoldable pub first_model : List (Span F) → Option Json
  first_model [] = some (str "unknown")
  first_model (s ∷ children) =
      let later = first_model children in if begins agent_prefix s.name then model_of s else later

  -- The record of a root span and its metadata, its timings 0.
  unfoldable pub new_record : Span F → Fields → Json → Option (MlflowTraceRecord F)
  new_record root meta model = do
    session_id ← reading.text_of (get_or "session_id" (str "unknown") meta)
    task_id ← or_none reading.text_of (get_or "task_id" null meta)
    agent_name ← reading.text_of (get_or "agent_name" (str "unknown") meta)
    benchmark_name ← reading.text_of (get_or "benchmark_name" (str "unknown") meta)
    model_text ← reading.text_of model
    num_parallel ← reading.int_of (get_or "num_parallel_tasks" (number "0") meta)
    experiment_name ← reading.text_of (get_or "experiment_name" (str "default") meta)
    evaluation_result ← or_none reading.bool_of (get_or "evaluation_result" null meta)
    some record {
      session_id = session_id;
      task_id = task_id;
      agent_name = agent_name;
      benchmark_name = benchmark_name;
      model = model_text;
      num_parallel = num_parallel;
      status = root.status_code;
      total_latency_s = reading.seconds root.latency_ms;
      experiment_name = experiment_name;
      start_time = root.start_time;
      evaluation_result = evaluation_result;
      status_message = root.status_message;
      session_creation_s = reading.zero_f;
      agent_call_s = reading.zero_f;
      evaluation_s = reading.zero_f;
      llm_total_s = reading.zero_f;
      llm_after_obs_s = reading.zero_f;
      tool_total_s = reading.zero_f;
      time_to_first_obs_s = reading.zero_f;
      overhead_s = reading.zero_f;
      llm_count = 0;
      llm_count_after_obs = 0;
      tool_count = 0;
      llm_input_tokens = 0;
      llm_output_tokens = 0;
      mcp_cpu_utilization_pct = reading.zero_f;
      mcp_throttle_pct = reading.zero_f;
      mcp_memory_max_mb = reading.zero_f;
      mcp_memory_utilization_pct = reading.zero_f;
      mcp_network_rx_mb = reading.zero_f;
      mcp_network_tx_mb = reading.zero_f;
      a2a_cpu_utilization_pct = reading.zero_f;
      a2a_throttle_pct = reading.zero_f;
      a2a_memory_max_mb = reading.zero_f;
      a2a_memory_utilization_pct = reading.zero_f;
      a2a_network_rx_mb = reading.zero_f;
      a2a_network_tx_mb = reading.zero_f;
      has_infra = false;
    }

  -- `if pod_infra:` of a pod's metrics
  abbrev is_empty_dict : Fields → Bool
  is_empty_dict end = true
  is_empty_dict (field _ _ _) = false

  pub record PodMetrics : Type 0 where
    pub cpu_utilization_pct : F
    pub throttle_pct : F
    pub memory_max_mb : F
    pub memory_utilization_pct : F
    pub network_rx_mb : F
    pub network_tx_mb : F

  -- `float(pod_infra.get(src, 0))` of each metric
  unfoldable pub pod_metrics : Fields → Option PodMetrics
  pod_metrics pod_infra = do
    cpu_utilization_pct ← reading.float_of (get_or "cpu_utilization_pct" (number "0") pod_infra)
    throttle_pct ← reading.float_of (get_or "throttle_pct" (number "0") pod_infra)
    memory_max_mb ← reading.float_of (get_or "memory_max_mb" (number "0") pod_infra)
    memory_utilization_pct ←
        reading.float_of (get_or "memory_utilization_pct" (number "0") pod_infra)
    network_rx_mb ← reading.float_of (get_or "network_rx_mb" (number "0") pod_infra)
    network_tx_mb ← reading.float_of (get_or "network_tx_mb" (number "0") pod_infra)
    some record {
      cpu_utilization_pct = cpu_utilization_pct;
      throttle_pct = throttle_pct;
      memory_max_mb = memory_max_mb;
      memory_utilization_pct = memory_utilization_pct;
      network_rx_mb = network_rx_mb;
      network_tx_mb = network_tx_mb;
    }

  unfoldable pub set_mcp : Fields → MlflowTraceRecord F → Option (MlflowTraceRecord F)
  set_mcp pod_infra r =
      let set = pod_metrics pod_infra >>= λ m. some record r {
        has_infra = true;
        mcp_cpu_utilization_pct = m.cpu_utilization_pct;
        mcp_throttle_pct = m.throttle_pct;
        mcp_memory_max_mb = m.memory_max_mb;
        mcp_memory_utilization_pct = m.memory_utilization_pct;
        mcp_network_rx_mb = m.network_rx_mb;
        mcp_network_tx_mb = m.network_tx_mb;
      } in
      if is_empty_dict pod_infra then some r else set

  unfoldable pub set_a2a : Fields → MlflowTraceRecord F → Option (MlflowTraceRecord F)
  set_a2a pod_infra r =
      let set = pod_metrics pod_infra >>= λ m. some record r {
        has_infra = true;
        a2a_cpu_utilization_pct = m.cpu_utilization_pct;
        a2a_throttle_pct = m.throttle_pct;
        a2a_memory_max_mb = m.memory_max_mb;
        a2a_memory_utilization_pct = m.memory_utilization_pct;
        a2a_network_rx_mb = m.network_rx_mb;
        a2a_network_tx_mb = m.network_tx_mb;
      } in
      if is_empty_dict pod_infra then some r else set

  -- `infra.get(pod_key, {})`, empty where it is false; none where `get` fails on what is no dict
  unfoldable pub pod_field : String → Fields → Option Fields
  pod_field pod_key infra = elim (get_or pod_key (object end) infra) [
    | object pod_infra ↦ some pod_infra
    | other ↦ if truth reading.is_zero other then none else some end
  ]

  -- The metrics of both pods.
  unfoldable pub set_infra : Fields → MlflowTraceRecord F → Option (MlflowTraceRecord F)
  set_infra root_attrs r = do
    infra ← dict_field "infra" root_attrs
    mcp ← pod_field "mcp" infra
    with_mcp ← set_mcp mcp r
    a2a ← pod_field "a2a" infra
    set_a2a a2a with_mcp
