-- ===== src/Runner/Tracing.antt =====
-- runner/tracing.py, `build_tracer`: what the exporter of the spans is given. The exporter itself, and
-- the tracer and `flush` that are made with it, are OpenTelemetry's.
use autobench.Prelude.{String, ◌⧺◌, Bool, Option, none, some, [], ◌∷◌, not, truthy, if◌then◌else◌}
use autobench.Prelude.Text.{rstrip}
use autobench.Prelude.Dict.{Dict}
use autobench.Models.Config.{MlflowConfig}

-- `verifies` is whether the certificate of the server is checked.
pub record Exporter : Type 0 where
  pub endpoint : String
  pub headers : Dict String
  pub verifies : Bool

workspace_header : Option String → Dict String
workspace_header none = []
workspace_header (some workspace) =
    if truthy workspace then ("x-mlflow-workspace", workspace) ∷ [] else []

exporter_at : MlflowConfig → String → String → Exporter
unfolding workspace_header
exporter_at cfg token tracking_url = record {
  endpoint = rstrip "/" tracking_url ⧺ "/v1/traces";
  headers =
      ("authorization", "Bearer " ⧺ token)
      ∷ ("x-mlflow-experiment-id", cfg.experiment_id)
      ∷ workspace_header cfg.workspace;
  verifies = not cfg.insecure_tls;
}

unfoldable pub build_tracer : MlflowConfig → String → Option Exporter
unfolding exporter_at
build_tracer cfg token = elim cfg.tracking_url [
  | none ↦ none
  | some url ↦ if truthy url then some (exporter_at cfg token url) else none
]
