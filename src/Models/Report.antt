-- ===== src/Models/Report.antt =====
-- models.py: the records and the rollups of a report. `F` is the type of its floats.
use autobench.Prelude.{ℕ, String, Bool, Option, List}
use autobench.Models.Run.{RunArtifact}

pub record MlflowTraceRecord (F : Type 0) : Type 0 where
  pub session_id : String
  pub task_id : Option String
  pub agent_name : String
  pub benchmark_name : String
  pub model : String
  pub num_parallel : ℕ
  pub status : String
  pub total_latency_s : F
  pub experiment_name : String
  pub start_time : String
  pub evaluation_result : Option Bool
  pub status_message : String
  pub session_creation_s : F
  pub agent_call_s : F
  pub evaluation_s : F
  pub llm_total_s : F
  pub llm_after_obs_s : F
  pub tool_total_s : F
  pub time_to_first_obs_s : F
  pub overhead_s : F
  pub llm_count : ℕ
  pub llm_count_after_obs : ℕ
  pub tool_count : ℕ
  pub llm_input_tokens : ℕ
  pub llm_output_tokens : ℕ
  pub mcp_cpu_utilization_pct : F
  pub mcp_throttle_pct : F
  pub mcp_memory_max_mb : F
  pub mcp_memory_utilization_pct : F
  pub mcp_network_rx_mb : F
  pub mcp_network_tx_mb : F
  pub a2a_cpu_utilization_pct : F
  pub a2a_throttle_pct : F
  pub a2a_memory_max_mb : F
  pub a2a_memory_utilization_pct : F
  pub a2a_network_rx_mb : F
  pub a2a_network_tx_mb : F
  pub has_infra : Bool

pub record ReportAggregate (F : Type 0) : Type 0 where
  pub agent_name : String
  pub benchmark_name : String
  pub model : String
  pub num_parallel : ℕ
  pub trace_count : ℕ
  pub eval_pass_rate : F
  pub total_latency_avg_s : F
  pub total_latency_p50_s : F
  pub total_latency_p95_s : F

pub record RunReportResponse (F : Type 0) : Type 0 where
  pub run_id : String
  pub benchmark : String
  pub experiment : String
  pub trace_count : ℕ
  pub records : List (MlflowTraceRecord F)
  pub artifacts : List RunArtifact

pub record ExperimentReportResponse (F : Type 0) : Type 0 where
  pub benchmark : String
  pub experiment : String
  pub window_h : F
  pub trace_count : ℕ
  pub aggregates : List (ReportAggregate F)
  pub records : List (MlflowTraceRecord F)
