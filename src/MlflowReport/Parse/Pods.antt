-- ===== src/MlflowReport/Parse/Pods.antt =====
-- mlflow_report.py, `parse_traces`: the metrics of the pods and the durations of the metadata, as to
-- the counters of a record.
use autobench.Prelude.{ℕ, true, ◌≡◌, Option, none, some}
use autobench.Prelude.Json.{Fields, end, field}
use autobench.Models.Report.{MlflowTraceRecord}
use autobench.MlflowReport.Download.{dict_field}
use autobench.MlflowReport.Parse.Record.{
  Reading, ◌>>=◌, PodMetrics, pod_metrics, pod_field, set_mcp, set_a2a, set_infra,
}
use autobench.MlflowReport.Parse.{fallbacks}
use autobench.MlflowReport.Parse.Chats.{Counts}

module _ {F : Type 0} (reading : Reading F) where
  set_mcp_counts :
      (pod_infra : Fields) (n m : ℕ) (r : MlflowTraceRecord F)
      → r.llm_count ≡ n
      → r.tool_count ≡ m
      → Counts n m (set_mcp reading pod_infra r)
  unfolding set_mcp
  set_mcp_counts end n m r h k = (h, k)
  set_mcp_counts (field key v rest) n m r h k = known (pod_metrics reading (field key v rest))
    where
      known :
          (o : Option (PodMetrics reading))
          → Counts n m (
              o >>= λ metrics. some record r {
                has_infra = true;
                mcp_cpu_utilization_pct = metrics.cpu_utilization_pct;
                mcp_throttle_pct = metrics.throttle_pct;
                mcp_memory_max_mb = metrics.memory_max_mb;
                mcp_memory_utilization_pct = metrics.memory_utilization_pct;
                mcp_network_rx_mb = metrics.network_rx_mb;
                mcp_network_tx_mb = metrics.network_tx_mb;
              })
      known none = tt
      known (some metrics) = (h, k)

  set_a2a_counts :
      (pod_infra : Fields) (n m : ℕ) (r : MlflowTraceRecord F)
      → r.llm_count ≡ n
      → r.tool_count ≡ m
      → Counts n m (set_a2a reading pod_infra r)
  unfolding set_a2a
  set_a2a_counts end n m r h k = (h, k)
  set_a2a_counts (field key v rest) n m r h k = known (pod_metrics reading (field key v rest))
    where
      known :
          (o : Option (PodMetrics reading))
          → Counts n m (
              o >>= λ metrics. some record r {
                has_infra = true;
                a2a_cpu_utilization_pct = metrics.cpu_utilization_pct;
                a2a_throttle_pct = metrics.throttle_pct;
                a2a_memory_max_mb = metrics.memory_max_mb;
                a2a_memory_utilization_pct = metrics.memory_utilization_pct;
                a2a_network_rx_mb = metrics.network_rx_mb;
                a2a_network_tx_mb = metrics.network_tx_mb;
              })
      known none = tt
      known (some metrics) = (h, k)

  -- What two readings in a row do with a record, and then a third.
  pods_counts :
      (infra : Option Fields) (mcp a2a : Fields → Option Fields) (n m : ℕ) (r : MlflowTraceRecord F)
      → r.llm_count ≡ n
      → r.tool_count ≡ m
      → Counts n m (
          infra >>= λ i. mcp i >>= λ p.
          set_mcp reading p r >>= λ with_mcp. a2a i >>= λ q. set_a2a reading q with_mcp)
  pods_counts none mcp a2a n m r h k = tt
  pods_counts (some i) mcp a2a n m r h k = first (mcp i)
    where
      last :
          (q : Option Fields) (w : MlflowTraceRecord F)
          → w.llm_count ≡ n
          → w.tool_count ≡ m
          → Counts n m (q >>= λ q. set_a2a reading q w)
      last none w h k = tt
      last (some q) w h k = set_a2a_counts q n m w h k

      then_last :
          (o : Option (MlflowTraceRecord F))
          → Counts n m o
          → Counts n m (o >>= λ w. a2a i >>= λ q. set_a2a reading q w)
      then_last none c = tt
      then_last (some w) c = last (a2a i) w c.0 c.1

      first :
          (p : Option Fields)
          → Counts n m (p >>= λ p. set_mcp reading p r >>= λ w. a2a i >>= λ q. set_a2a reading q w)
      first none = tt
      first (some p) = then_last (set_mcp reading p r) (set_mcp_counts p n m r h k)

  pub set_infra_counts :
      (root_attrs : Fields) (n m : ℕ) (r : MlflowTraceRecord F)
      → r.llm_count ≡ n
      → r.tool_count ≡ m
      → Counts n m (set_infra reading root_attrs r)
  unfolding set_infra
  set_infra_counts root_attrs n m r h k =
      pods_counts (dict_field "infra" root_attrs) (pod_field reading "mcp")
        (pod_field reading "a2a") n m r h k

  two_counts :
      (call evaluation : Option F) (n m : ℕ) (r : MlflowTraceRecord F)
      → r.llm_count ≡ n
      → r.tool_count ≡ m
      → Counts n m (
          call >>= λ agent_call_s. evaluation >>= λ evaluation_s.
          some record r { agent_call_s = agent_call_s; evaluation_s = evaluation_s })
  two_counts none evaluation n m r h k = tt
  two_counts (some c) none n m r h k = tt
  two_counts (some c) (some e) n m r h k = (h, k)

  pub fallbacks_counts :
      (meta root_attrs : Fields) (n m : ℕ) (r : MlflowTraceRecord F)
      → r.llm_count ≡ n
      → r.tool_count ≡ m
      → Counts n m (fallbacks reading meta root_attrs r)
  unfolding fallbacks
  fallbacks_counts meta root_attrs n m r h k = two_counts _ _ n m r h k
