-- ===== src/Models/Run.antt =====
-- models.py: what a run is asked for, what it records, and what is published of it.
use autobench.Prelude.{ℕ, String, Bool, Option, List}

pub data RunStatus : Type 0 where
  pending running succeeded failed : RunStatus

pub record RunRequest : Type 0 where
  pub agent : String
  pub namespace : String
  pub experiment : String
  pub max_tasks : ℕ
  pub max_parallel_sessions : ℕ
  pub timeout_seconds : ℕ
  pub task_timeout_seconds : Option ℕ

pub record TaskResult : Type 0 where
  pub task_id : String
  pub session_id : Option String
  pub passed : Bool
  pub latency_seconds : ℕ
  pub error : Option String

-- A quotient of two counts, kept as a fraction; 0/1 is 0.0.
pub record Ratio : Type 0 where
  pub part : ℕ
  pub whole : ℕ

pub record RunSummary : Type 0 where
  pub total : ℕ
  pub succeeded : ℕ
  pub evaluated_pass : ℕ
  pub pass_rate : Ratio
  pub wall_seconds : ℕ

pub record RunArtifact : Type 0 where
  pub name : String
  pub format : String
  pub key : String
  pub url : String
  pub size_bytes : ℕ

-- What a deployment's LLM calls go to, as far as it may be published.
pub record DeploymentLlm : Type 0 where
  pub gateway : String
  pub model : String
  pub key_secret : String

pub record RunState : Type 0 where
  pub run_id : String
  pub benchmark : String
  pub agent : String
  pub namespace : String
  pub experiment : String
  pub status : RunStatus
  pub started_at : Option ℕ
  pub finished_at : Option ℕ
  pub summary : Option RunSummary
  pub results : List TaskResult
  pub error : Option String
  pub artifacts_prefix : Option String
  pub artifacts : List RunArtifact
  pub llm : Option DeploymentLlm
