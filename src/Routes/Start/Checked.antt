-- ===== src/Routes/Start/Checked.antt =====
-- routes/runs.py, `start_run`: which runs are created.
use autobench.Prelude.{
  String, true, ◌≡◌, ◌⊎◌, inl, inr, refl, ap, ◌∙◌, Option, none, some, eq_refl, arith,
}
use autobench.Prelude.Dict.{get as get_key, put, get-put}
use autobench.Models.Run.{RunRequest, DeploymentLlm}
use autobench.Models.Workload.{SecretKeyRef}
use autobench.Benchmarks.Definition.{BenchmarkDefinition, tool_name, agent_name}
use autobench.Benchmarks.Catalog.{benchmarks}
use autobench.Runner.Registry.{Runs, Entry, Task, create, attach_task, get, get_run, new_run}
use autobench.Runner.Registry.Tenants.{attach_there, write_there}
use autobench.Routes.Start.{
  Answer, ok, http_error, raised, Lookup, resource, refused, broken, is_ready, looked_up, not_ready,
  unready, workload_precheck, Login, login_done, login_error, login_broken, deployed_key, bind_run,
  launch, prechecked, admit, settle, start_run,
}

abbrev pub IsReady : Lookup → Type 0
IsReady (resource status) = is_ready status ≡ true
IsReady _ = ⊥

unready_ok :
    (defn : BenchmarkDefinition) (req : RunRequest) (key_secret : Option SecretKeyRef)
    (tool agent : Option String)
    → unready defn req key_secret (not_ready defn req key_secret tool agent) ≡ ok tt
    → (is_ready tool ≡ true) × (is_ready agent ≡ true)
unfolding unready not_ready
unready_ok defn req key_secret tool agent h = (ground arith, ground arith)

precheck_ok :
    (defn : BenchmarkDefinition) (req : RunRequest) (key_secret : Option SecretKeyRef)
    (t a : Lookup)
    → looked_up defn req key_secret t (λ tool.
      looked_up defn req key_secret a
        (λ agent. unready defn req key_secret (not_ready defn req key_secret tool agent)))
      ≡ ok tt
    → IsReady t × IsReady a
unfolding looked_up
precheck_ok defn req key_secret (resource tool) (resource agent) h =
    unready_ok defn req key_secret tool agent h
precheck_ok defn req key_secret (resource tool) (refused status text) h = absurd (ground arith)
precheck_ok defn req key_secret (resource tool) (broken text) h = absurd (ground arith)
precheck_ok defn req key_secret (refused status text) a h = absurd (ground arith)
precheck_ok defn req key_secret (broken text) a h = absurd (ground arith)

get-put_self :
    (run_id : String) (e : Entry) (runs : Runs) → get_key run_id (put run_id e runs) ≡ some e
get-put_self run_id e runs = ground (arith, get-put run_id run_id e runs, eq_refl run_id)

-- What the registry has of the run that `start_run` creates.
abbrev pub entry_of :
    String → String → String → RunRequest → Option DeploymentLlm → Option Task → Entry
entry_of run_id name iss req llm task = record {
  state = record (new_run run_id name req) { llm = llm };
  iss = iss;
  task = task;
}

bind_run_lem :
    (run_id name iss : String) (req : RunRequest) (llm : Option DeploymentLlm) (runs : Runs)
    → get_key run_id (bind_run run_id name req iss llm runs)
      ≡ some (entry_of run_id name iss req llm none)
unfolding bind_run create
bind_run_lem run_id name iss req llm runs =
    let made : Entry = record { state = new_run run_id name req; iss = iss; task = none } in
    ap (get_key run_id) (
      write_there run_id (λ r. record r { llm = llm }) (put run_id made runs) made
        (get-put_self run_id made runs))
    ∙ get-put_self run_id (entry_of run_id name iss req llm none) (put run_id made runs)

attached :
    (run_id : String) (task : Task) (e : Entry) (runs : Runs)
    → get_key run_id runs ≡ some e
    → get_key run_id (attach_task run_id task runs) ≡ some (record e { task = some task })
attached run_id task e runs there =
    ap (get_key run_id) (attach_there run_id task runs e there)
    ∙ get-put_self run_id (record e { task = some task }) runs

module _ (name : String) (req : RunRequest) (deployed : Option DeploymentLlm)
    (get_tool get_agent : String → Lookup) where
  -- Both workloads of the benchmark are ready.
  abbrev pub AreReady : BenchmarkDefinition → Type 0
  AreReady defn =
      IsReady (get_tool (tool_name defn.name))
      × IsReady (get_agent (agent_name defn.name req.agent req.experiment))

  prechecked_ok :
      (defn : BenchmarkDefinition) (key : Answer (Option SecretKeyRef))
      → prechecked name req deployed defn get_tool get_agent key ≡ ok tt
      → AreReady defn
  unfolding prechecked workload_precheck
  prechecked_ok defn (ok key_secret) h = precheck_ok defn req key_secret _ _ h
  prechecked_ok defn (http_error status detail) h = absurd (ground arith)
  prechecked_ok defn (raised text) h = absurd (ground arith)

  admit_ok :
      (login : Login) (o : Option BenchmarkDefinition)
      → admit name req deployed login get_tool get_agent o ≡ ok tt
      → (defn : BenchmarkDefinition) × (o ≡ some defn) × AreReady defn
  unfolding admit
  admit_ok login none h = absurd (ground arith)
  admit_ok login_done (some defn) h =
      (defn, refl, prechecked_ok defn (deployed_key deployed) (ground arith))
  admit_ok (login_error exc) (some defn) h = absurd (ground arith)
  admit_ok (login_broken exc) (some defn) h = absurd (ground arith)

  settled :
      (run_id iss : String) (task : Task) (unprepared : Option String) (runs : Runs)
      (o : Answer (Unit {0}))
      → ((o ≡ ok tt)
          × (settle name req deployed run_id iss task unprepared runs o
              ≡ launch run_id task unprepared (bind_run run_id name req iss deployed runs)))
        ⊎ ((settle name req deployed run_id iss task unprepared runs o).1 ≡ runs)
  unfolding settle
  settled run_id iss task unprepared runs (ok _) = inl (refl, refl)
  settled run_id iss task unprepared runs (http_error status detail) = inr refl
  settled run_id iss task unprepared runs (raised text) = inr refl

  -- The run's task is there and its id is the answer, if what the task is given could be made;
  -- else there is no task, and the exception is raised.
  abbrev pub IsStarted : String → String → Task → Option String → Answer String × Runs → Type 0
  IsStarted run_id iss task none (answer, runs) =
      (answer ≡ ok run_id)
      × (get_key run_id runs ≡ some (entry_of run_id name iss req deployed (some task)))
  IsStarted run_id iss task (some exc) (answer, runs) =
      (answer ≡ raised exc)
      × (get_key run_id runs ≡ some (entry_of run_id name iss req deployed none))

  launched :
      (run_id iss : String) (task : Task) (unprepared : Option String) (runs : Runs)
      → get_key run_id runs ≡ some (entry_of run_id name iss req deployed none)
      → (get_run name run_id iss (launch run_id task unprepared runs).1
          ≡ some (record (new_run run_id name req) { llm = deployed }))
        × IsStarted run_id iss task unprepared (launch run_id task unprepared runs)
  unfolding launch get_run get
  launched run_id iss task none runs there =
      let now_there =
        attached run_id task (entry_of run_id name iss req deployed none) runs there in
      (ground (arith, now_there, eq_refl iss, eq_refl name), (refl, now_there))
  launched run_id iss task (some exc) runs there =
      (ground (arith, there, eq_refl iss, eq_refl name), (refl, there))

  -- `start_run` leaves the registry as it was, or it has created a run, of a known benchmark whose
  -- tool and agent were both found ready, which `get_run` finds for its tenant, with the LLM of the
  -- deploy. Then it answers with the run's id and the run has its task, unless the urls or the
  -- tracer of that task could not be made: then it raises, and the run stays behind without a task.
  pub start_run_checked :
      (login : Login) (unprepared : Option String) (run_id iss : String) (task : Task) (runs : Runs)
      → ((start_run name req deployed login unprepared get_tool get_agent run_id iss task runs).1
          ≡ runs)
        ⊎ (((defn : BenchmarkDefinition) × (get_key name benchmarks ≡ some defn) × AreReady defn)
            × (get_run name run_id iss
                  (start_run name req deployed login unprepared get_tool get_agent run_id iss task
                    runs).1
                ≡ some (record (new_run run_id name req) { llm = deployed }))
            × IsStarted run_id iss task unprepared (
                start_run name req deployed login unprepared get_tool get_agent run_id iss task
                  runs))
  unfolding start_run
  start_run_checked login unprepared run_id iss task runs =
      elim (settled run_id iss task unprepared runs
        (admit name req deployed login get_tool get_agent (get_key name benchmarks))) [
          | inr kept ↦ inl kept
          | inl (admitted, is) ↦ inr (
            admit_ok login (get_key name benchmarks) admitted,
            rw is
                (launched run_id iss task unprepared (bind_run run_id name req iss deployed runs)
                  (bind_run_lem run_id name iss req deployed runs)).0,
            rw is
                (launched run_id iss task unprepared (bind_run run_id name req iss deployed runs)
                  (bind_run_lem run_id name iss req deployed runs)).1,
          )
        ]
