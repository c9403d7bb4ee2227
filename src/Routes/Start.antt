-- ===== src/Routes/Start.antt =====
-- routes/runs.py, `start_run` and what it asks before a run is created. The login and the lookups of
-- the platform are arguments; the background task that it starts is `execute`. Of the urls and the
-- tracer that the task is given only the exception is there that making them may raise.
pub mod Checked
use Prim.Native.Char.{code}
use autobench.Prelude.{
  ℕ, String, ◌⧺◌, Bool, true, false, Option, none, some, List, [], ◌∷◌, map, eqb, is_some, ◌==◌,
  if◌then◌else◌,
}
use autobench.Prelude.Dict.{get}
use autobench.Prelude.Text.{join}
use autobench.Models.Run.{RunRequest, RunState, DeploymentLlm}
use autobench.Models.Workload.{SecretKeyRef}
use autobench.Benchmarks.Definition.{BenchmarkDefinition, tool_name, agent_name}
use autobench.Benchmarks.Requests.{required_secrets}
use autobench.Benchmarks.Catalog.{benchmarks}
use autobench.Runner.Registry.{Runs, Task, create, write, attach_task}

-- A handler answers, rejects with an HTTP status and a detail, or raises something else.
pub data Answer (A : Type 0) : Type 0 where
  ok : A → Answer A
  http_error : ℕ → String → Answer A
  raised : String → Answer A

-- A lookup finds a workload with its `readyStatus`, gets a status that is an error, or raises.
pub data Lookup : Type 0 where
  resource : Option String → Lookup
  refused : ℕ → String → Lookup
  broken : String → Lookup

-- `ropc.login` returns a token, raises its own error, or raises another exception.
pub data Login : Type 0 where
  login_done : Login
  login_error : String → Login
  login_broken : String → Login

abbrev pub is_ready : Option String → Bool
is_ready none = false
is_ready (some status) = status == "Ready"

secret_text : SecretKeyRef → String
secret_text ref = ref.name ⧺ (" (key " ⧺ (ref.key ⧺ ")"))

-- `_secret_hint`
unfoldable pub secret_hint : BenchmarkDefinition → String → Option SecretKeyRef → String
unfolding secret_text
secret_hint defn agent key_secret = elim (required_secrets defn agent key_secret) [
  | [] ↦ ""
  | ref ∷ refs ↦
      " This benchmark requires secret(s): " ⧺ (join ", " (map secret_text (ref ∷ refs)) ⧺ ".")
]

module _ (defn : BenchmarkDefinition) (req : RunRequest) (key_secret : Option SecretKeyRef) where
  not_deployed : String
  not_deployed =
      "benchmark '"
      ⧺ (defn.name
          ⧺ ("' is not deployed in namespace '"
              ⧺ (req.namespace ⧺ ("'. POST /benchmarks/" ⧺ (defn.name ⧺ "/deploy first.")))))

  -- `except RossoctlError as exc`
  looked_up : {A : Type 0} → Lookup → (Option String → Answer A) → Answer A
  unfolding not_deployed
  looked_up (resource status) go_on = go_on status
  looked_up (refused status text) go_on =
      if eqb status 404 then http_error 409 not_deployed else http_error 502 text
  looked_up (broken text) go_on = raised text

  not_ready : Option String → Option String → List String
  not_ready tool agent =
      let agents =
        if is_ready agent
        then []
        else ("agent " ⧺ agent_name defn.name req.agent req.experiment) ∷ [] in
      if is_ready tool then agents else ("tool " ⧺ tool_name defn.name) ∷ agents

  unready : List String → Answer (Unit {0})
  unready [] = ok tt
  unready labels = http_error 424 (
      "cannot start run: "
      ⧺ (join ", " labels
          ⧺ (" not Ready in namespace '"
              ⧺ (req.namespace
                  ⧺ ("'."
                      ⧺ (secret_hint defn req.agent key_secret
                          ⧺ (" Ensure the required secrets exist and the workloads are Ready (GET /benchmarks/"
                              ⧺ (defn.name ⧺ "/status)."))))))))

  -- `_workload_precheck`, with the answers for the tool's name and the agent's.
  unfoldable pub workload_precheck : (String → Lookup) → (String → Lookup) → Answer (Unit {0})
  unfolding looked_up not_ready unready
  workload_precheck get_tool get_agent = looked_up (get_tool (tool_name defn.name)) λ tool.
      looked_up (get_agent (agent_name defn.name req.agent req.experiment))
        λ agent. unready (not_ready tool agent)

-- `tuple(key_secret.split(":", 1))`
unfoldable pub split_once : String → Option (String × String)
split_once String.[] = none
split_once (String.◌∷◌ c rest) =
    let later = split_once rest in
    if eqb (code c) 58
    then some ("", rest)
    else elim later [ none ↦ none | some (before, after) ↦ some (String.◌∷◌ c before, after) ]

-- The key of the deploy, if there was one; a text without a colon is no pair.
unfoldable pub deployed_key : Option DeploymentLlm → Answer (Option SecretKeyRef)
deployed_key none = ok none
deployed_key (some llm) = elim (split_once llm.key_secret) [
  | none ↦ raised "not enough values to unpack"
  | some (name, key) ↦ ok (some (record { name = name; key = key }))
]

-- The run is created, and gets the deploy's LLM.
unfoldable pub bind_run : String → String → RunRequest → String → Option DeploymentLlm → Runs → Runs
bind_run run_id name req iss llm runs =
    write run_id (λ r. record r { llm = llm }) (create run_id name req iss runs).1

-- What follows the creation. `unprepared` is the exception of `mcp_url`, of `agent_url` or of
-- `_build_run_tracer`, if one of them raises: then no task is started, and the run stays as it is.
unfoldable pub launch : String → Task → Option String → Runs → Answer String × Runs
launch run_id task none runs = (ok run_id, attach_task run_id task runs)
launch run_id task (some exc) runs = (raised exc, runs)

-- What stands between the login and the creation of the run.
module _ (name : String) (req : RunRequest) (deployed : Option DeploymentLlm) where
  prechecked :
      BenchmarkDefinition
      → (String → Lookup)
      → (String → Lookup)
      → Answer (Option SecretKeyRef)
      → Answer (Unit {0})
  prechecked defn get_tool get_agent (ok key_secret) =
      workload_precheck defn req key_secret get_tool get_agent
  prechecked defn get_tool get_agent (http_error status detail) = http_error status detail
  prechecked defn get_tool get_agent (raised text) = raised text

  admit :
      Login → (String → Lookup) → (String → Lookup) → Option BenchmarkDefinition → Answer (Unit {0})
  unfolding prechecked
  admit login get_tool get_agent none = http_error 404 ("unknown benchmark: " ⧺ name)
  admit login get_tool get_agent (some defn) =
      if is_some (get req.agent defn.agents)
      then elim login [
        | login_done ↦ prechecked defn get_tool get_agent (deployed_key deployed)
        | login_error exc ↦ http_error 502 ("upstream login failed: " ⧺ exc)
        | login_broken exc ↦ raised exc
      ]
      else http_error 404 ("unknown agent '" ⧺ (req.agent ⧺ ("' for benchmark '" ⧺ (name ⧺ "'"))))

  settle : String → String → Task → Option String → Runs → Answer (Unit {0}) → Answer String × Runs
  settle run_id iss task unprepared runs (ok _) =
      launch run_id task unprepared (bind_run run_id name req iss deployed runs)
  settle run_id iss task unprepared runs (http_error status detail) =
      (http_error status detail, runs)
  settle run_id iss task unprepared runs (raised text) = (raised text, runs)

  unfoldable pub start_run :
      Login
      → Option String
      → (String → Lookup)
      → (String → Lookup)
      → String
      → String
      → Task
      → Runs
      → Answer String × Runs
  unfolding admit settle
  start_run login unprepared get_tool get_agent run_id iss task runs =
      settle run_id iss task unprepared runs (admit login get_tool get_agent (get name benchmarks))
