-- ===== src/Routes/Finish.antt =====
-- routes/runs.py, `_build_clients` and `_maybe_export_run`: the clients of a run, and its export. The
-- settled reading (`_collect_records_soft`, dumped to JSON) and the dump of a run are arguments.
use autobench.Prelude.{ℕ, String, Bool, Option, none, some, List, min, eqb, is_set, if◌then◌else◌}
use mathlib.Core.Option
use autobench.Prelude.Json.{Items, Fields}
use autobench.Prelude.Outcome.{Action, Outcome, pure, ◌>>=◌}
use autobench.Models.Config.{S3Config}
use autobench.Models.Run.{RunState, RunArtifact, DeploymentLlm}
use autobench.Benchmarks.Definition.{or_else}
use autobench.S3Export.Keys.{run_prefix}
use autobench.S3Export.Upload.{Codec, Put}
use autobench.S3Export.Publish.{export_run}

-- What a client is made with: its url, its token and the seconds that bound a call, or a turn.
pub record ClientOptions : Type 0 where
  pub url : String
  pub token : Option String
  pub timeout : ℕ

-- `a or b` of seconds
abbrev or_seconds : Option ℕ → ℕ → ℕ
or_seconds none other = other
or_seconds (some n) other = if eqb n 0 then other else n

-- `_build_clients`: the options of the MCP session and of the A2A client.
unfoldable pub build_clients :
    String → String → Option String → ℕ → Option ℕ → ClientOptions × ClientOptions
build_clients mcp_url agent_url token timeout a2a_timeout = (
  record { url = mcp_url; token = token; timeout = min 120 timeout },
  record { url = agent_url; token = token; timeout = or_seconds a2a_timeout timeout },
)

module _ (shape_id : String → String) (is_zero : String → Bool) {W B : Type 0} (codec : Codec B)
    (cfg : S3Config) (put_object : Put B → Action W (Unit {0})) (make_client : Outcome (Unit {0}))
    (collect : RunState → Action W (Items × Items)) (dump : RunState → Fields) where
  -- The run with what the export has stored.
  exported : String → String → RunState → List RunArtifact → RunState
  exported username iss run artifacts = record run {
    artifacts = artifacts;
    artifacts_prefix = some (run_prefix cfg username iss run.benchmark run.run_id);
  }

  export_as : String → String → RunState → Action W RunState
  unfolding exported
  export_as username iss run = do
    found ← collect run
    artifacts ←
        export_run shape_id is_zero codec cfg put_object make_client username iss run.benchmark
          run.run_id found.0 (dump run) found.1
          (Option.map (λ (llm : DeploymentLlm). llm.gateway) run.llm)
    pure (exported username iss run artifacts)

  -- `_maybe_export_run`, for the caller's name and issuer.
  unfoldable pub maybe_export_run : Option String → String → RunState → Action W RunState
  unfolding export_as
  maybe_export_run preferred_username iss run =
      if is_set cfg.bucket
      then export_as (or_else preferred_username "unknown") iss run
      else pure run
