-- ===== src/Routes/Platform.antt =====
-- routes/benchmarks.py: what the handlers of a benchmark are asked and answer, and the platform that
-- they call.
use autobench.Prelude.{ℕ, String, Bool, ◌||◌, Option, List, eqb, if◌then◌else◌}
use autobench.Prelude.Json.{Json, Fields}
use autobench.Models.Run.{DeploymentLlm}
use autobench.Models.Workload.{AgentCreateRequest, ToolCreateRequest}
use autobench.Deployments.{DeploymentRecords}
use autobench.Routes.Start.{Answer, http_error, raised}

-- What a call of the platform's client gives: a `RossoctlError` is refused.
pub data Reply (A : Type 0) : Type 0 where
  replied : A → Reply A
  refused : ℕ → String → Reply A
  broken : String → Reply A

-- `_http_error`
unfoldable pub http_status : ℕ → ℕ
http_status status = if eqb status 404 || eqb status 409 then status else 502

pub record DeployBenchmarkRequest : Type 0 where
  pub agent : String
  pub model : Option String
  pub namespace : String
  pub experiment : String
  pub authbridge_enabled : Bool
  pub plugin_preset : Option String
  pub plugins : Option (List String)
  pub on_error : Option String
  pub plugin_config_file : Option String
  pub llm_api_base : Option String
  pub llm_key_secret : Option String
  pub llm_gateway : Option String

pub record DeployBenchmarkResponse : Type 0 where
  pub benchmark : String
  pub namespace : String
  pub tool_name : String
  pub agent_name : String
  pub tool : Fields
  pub agent : Fields
  pub llm : Option DeploymentLlm

pub record BenchmarkStatusResponse : Type 0 where
  pub benchmark : String
  pub namespace : String
  pub tool_name : String
  pub agent_name : String
  pub tool_ready : Bool
  pub agent_ready : Bool
  pub tool_status : Option String
  pub agent_status : Option String

pub record Platform (W : Type 0) : Type 0 where
  pub create_tool : ToolCreateRequest → W → Reply Json × W
  pub create_agent : AgentCreateRequest → W → Reply Json × W
  pub get_tool : String → String → W → Reply (Option String) × W
  pub get_agent : String → String → W → Reply (Option String) × W
  pub delete_agent : String → String → W → Reply (Unit {0}) × W
  pub delete_tool : String → String → W → Reply (Unit {0}) × W

-- The platform, and the records of the application.
pub record State (W : Type 0) : Type 0 where
  pub world : W
  pub deployments : DeploymentRecords

abbrev pub Handler : Type 0 → Type 0 → Type 0
Handler W A = State W → Answer A × State W

-- A call of the platform inside the `try` of a handler, and what comes after it.
abbrev pub go_on : {W A B : Type 0} → Reply A → (A → Handler W B) → Handler W B
go_on (replied a) next s = next a s
go_on (refused status text) next s = (http_error (http_status status) text, s)
go_on (broken text) next s = (raised text, s)

abbrev pub calling : {W A B : Type 0} → (W → Reply A × W) → (A → Handler W B) → Handler W B
calling call next s =
    let (reply, world) = call s.world in go_on reply next (record s { world = world })
