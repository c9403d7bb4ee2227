-- ===== src/Runner/Registry.antt =====
-- runner/registry.py: the runs of all tenants, in memory, each under its id with its tenant's `iss`.
-- The fresh id is an argument (the time and random digits). Runs are mutable objects that the caller
-- keeps; `write` is what such a caller's change of its run does to the registry.
pub mod Tenants
use autobench.Prelude.{
  ℕ, String, Bool, true, false, not, ◌&&◌, Option, none, some, List, [], ◌∷◌, map, select, is_some,
  ◌==◌, if◌then◌else◌,
}
use autobench.Prelude.Dict.{Dict, get as get_key, put, values}
use autobench.Models.Run.{RunRequest, RunState, RunStatus}

-- An `asyncio.Task`, by a number, and whether it has ended.
pub record Task : Type 0 where
  pub number : ℕ
  pub is_done : Bool

pub record Entry : Type 0 where
  pub state : RunState
  pub iss : String
  pub task : Option Task

abbrev pub Runs : Type 0
Runs = Dict Entry

abbrev pub new_run : String → String → RunRequest → RunState
new_run run_id benchmark req = record {
  run_id = run_id;
  benchmark = benchmark;
  agent = req.agent;
  namespace = req.namespace;
  experiment = req.experiment;
  status = RunStatus.pending;
  started_at = none;
  finished_at = none;
  summary = none;
  results = [];
  error = none;
  artifacts_prefix = none;
  artifacts = [];
  llm = none;
}

unfoldable pub create : String → String → RunRequest → String → Runs → RunState × Runs
create run_id benchmark req iss runs =
    let state = new_run run_id benchmark req in
    (state, put run_id (record { state = state; iss = iss; task = none }) runs)

unfoldable pub attach_task : String → Task → Runs → Runs
attach_task run_id task runs = elim (get_key run_id runs) [
  | none ↦ runs
  | some entry ↦ put run_id (record entry { task = some task }) runs
]

-- What the holder of a run does to it, by way of the shared object.
unfoldable pub write : String → (RunState → RunState) → Runs → Runs
write run_id change runs = elim (get_key run_id runs) [
  | none ↦ runs
  | some entry ↦ put run_id (record entry { state = change entry.state }) runs
]

unfoldable pub get : String → String → Runs → Option RunState
get run_id iss runs = elim (get_key run_id runs) [
  | none ↦ none
  | some entry ↦ if entry.iss == iss then some entry.state else none
]

abbrev pub is_listed : String → String → Entry → Bool
is_listed benchmark iss e = e.iss == iss && e.state.benchmark == benchmark

unfoldable pub list_runs : String → String → Runs → List RunState
list_runs benchmark iss runs = map (λ e. e.state) (select (is_listed benchmark iss) (values runs))

tasks_of : List Entry → List Task
tasks_of [] = []
tasks_of (e ∷ entries) =
    let rest = tasks_of entries in
    elim e.task [ none ↦ rest | some task ↦ if task.is_done then rest else task ∷ rest ]

unfoldable pub in_flight_tasks : Runs → List Task
unfolding tasks_of
in_flight_tasks runs = tasks_of (values runs)

-- routes/runs.py, `get_run`: the tenant's run, of the benchmark in the path.
unfoldable pub get_run : String → String → String → Runs → Option RunState
get_run name run_id iss runs = elim (get run_id iss runs) [
  | none ↦ none
  | some run ↦ if run.benchmark == name then some run else none
]
