-- ===== src/Models/Health.antt =====
-- models.py: the answer of the MLflow probe.
use autobench.Prelude.{String, Bool, Option}

pub record MlflowHealthStage : Type 0 where
  pub is_ok : Bool
  pub detail : Option String
  pub error : Option String

pub record MlflowHealthResponse : Type 0 where
  pub is_ok : Bool
  pub tracking_url : Option String
  pub credential_mode : String
  pub experiment_id : String
  pub workspace : Option String
  pub insecure_tls : Bool
  pub auth : MlflowHealthStage
  pub read : MlflowHealthStage
  pub write : Option MlflowHealthStage
  pub round_trip : Option MlflowHealthStage
