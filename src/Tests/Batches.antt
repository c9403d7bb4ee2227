-- ===== src/Tests/Batches.antt =====
-- A batch of two tasks: one runs through, the other is aborted.
use autobench.Prelude.{
  ◌≤◌, max, String, true, false, ◌≡◌, ◌⊎◌, refl, none, some, List, [], ◌∷◌, count_if, arith,
}
use autobench.Prelude.Outcome.{Raised, return, interrupt}
use autobench.Models.Run.{TaskResult, RunSummary}
use autobench.Runner.Task.{run_task}
use autobench.Runner.Batch.{
  Slot, waiting, running, recording, finished, aborted, slot, Batch, Step, enter, leave, append,
  abort, Steps, here, next, begin, append_result, one, conclude,
}
use autobench.Runner.Batch.Accounting.{results_of}
use autobench.Runner.Batch.Bounds.{in_flight, Steps-in_flight}
use autobench.Runner.Batch.Summary.{Tells, Steps-summary}
use autobench.Runner.Benchmark.Complete.{conclude_accounts}
use autobench.Tests.Samples.{clients, meta, run}

abbrev passed_a : TaskResult
passed_a = record {
  task_id = "a";
  session_id = some "a";
  passed = true;
  latency_seconds = 1;
  error = none;
}

abbrev stop : Raised
stop = interrupt "CancelledError()"

abbrev two : List String
two = "a" ∷ "b" ∷ []

abbrev after : List Slot → Batch
after slots = record { run = record run { results = [] }; slots = slots }

abbrev ended : Batch
ended = record {
  run = append_result 5 passed_a (record run { results = [] });
  slots = slot "a" finished ∷ slot "b" (aborted stop) ∷ [];
}

one_a : (one clients false meta (some 300) "a" 0).0 ≡ return passed_a
unfolding one run_task
one_a = refl

abbrev entered : Batch
entered = after (slot "a" running ∷ slot "b" waiting ∷ [])

abbrev left : Batch
left = after (slot "a" (recording passed_a) ∷ slot "b" waiting ∷ [])

abbrev appended : Batch
appended = record ended { slots = slot "a" finished ∷ slot "b" waiting ∷ [] }

abbrev MyStep : Batch → Batch → Type 0
MyStep b b' = Step clients false meta (some 300) 1 b b'

entering : MyStep (begin run two) entered
unfolding count_if
entering = enter [] (slot "b" waiting ∷ []) "a" refl (omega arith) refl

leaving : MyStep entered left
leaving = leave [] (slot "b" waiting ∷ []) "a" 0 passed_a refl one_a refl

appending : MyStep left appended
appending = append [] (slot "b" waiting ∷ []) "a" passed_a 5 refl refl

aborting : MyStep appended ended
aborting = abort (slot "a" finished ∷ []) [] "b" waiting stop refl refl refl

through : Steps clients false meta (some 300) 1 (begin run two) ended
through = next (next (next (next here entering) leaving) appending) aborting

conclude_accounts_example :
    (results_of "b" (conclude (λ _. "CancelledError()") 6 7 ended).results ≤ 1)
    × (1 ≤ results_of "b" (conclude (λ _. "CancelledError()") 6 7 ended).results)
unfolding count_if
conclude_accounts_example =
    conclude_accounts clients false meta (some 300) 1 (λ _. "CancelledError()") run two ended 6 7
      "b" through (refl, (refl, tt))

Steps-in_flight_example : in_flight ended.slots ≤ max 1 1
Steps-in_flight_example = Steps-in_flight clients false meta (some 300) 1 run two through

Steps-summary_example :
    (ended.run.results ≡ [])
    ⊎ ((s : RunSummary) × (ended.run.summary ≡ some s) × Tells s ended.run.results)
Steps-summary_example = Steps-summary clients false meta (some 300) 1 run two through
