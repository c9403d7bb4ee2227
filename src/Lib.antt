-- ===== src/Lib.antt =====
-- AutoBench runs agentic benchmarks: it deploys a benchmark's tool and agent pods through a
-- platform, drives a batch of tasks against them over MCP and A2A, and publishes the results.
--
-- The parts and their files:
-- Prelude: names, lists, texts, JSON values and dicts that the parts share. Prelude/Outcome is the
-- reading of Python statements: an action changes a state and returns or raises, and what was
-- written before an exception stays written.
-- Models: src/autobench/models.py, the runs (Models/Run), the workloads (Models/Workload), the
-- configuration (Models/Config), the records of a report (Models/Report), the answer of the MLflow
-- probe (Models/Health) and the bodies that the platform takes (Models/Wire).
-- Runner: src/autobench/runner. Task is `_run_task` of engine.py, Batch the batch of tasks under
-- the semaphore as a step relation, Benchmark `run_benchmark`; McpSession is mcp_session.py (its
-- connect in Connect), A2aAgent a2a_agent.py, Prompt prompt.py, Registry registry.py and Tracing
-- what tracing.py gives the exporter. Clients is what the engine is handed.
-- Benchmarks: src/autobench/benchmarks/registry.py. Env is the environments of the pods,
-- Definition the definition of a benchmark with its names and urls, Requests what a deploy
-- creates, Catalog the table `BENCHMARKS`.
-- Routes: src/autobench/routes/runs.py, Execute `_execute`, Start `start_run` with its precheck,
-- Settle the loop that reads a run's records until they are complete, Reports the routes that
-- answer with runs and reports, Finish the clients and the export of a run; Deploy the deploy,
-- status and teardown of routes/benchmarks.py, with what they are asked and call in Platform;
-- Mlflow the probe of routes/mlflow.py, its texts
-- in Mlflow/Stages and its stages in Mlflow/Health.
-- Auth: src/autobench/auth, deps.py and context.py. Discovery is discovery.py, Jwks the cache of
-- jwks.py, CallerJwt caller_jwt.py, Login ropc.py and mlflow.py, Access the dependencies.
-- Rossoctl: src/autobench/rossoctl/client.py (Client) with routes/agents.py and routes/tools.py.
-- Reference: reference/causelib.py (Causelib) and reference/shortlistlib.py (Shortlistlib).
-- PublicErrors: src/autobench/public_errors.py.
-- S3Export: src/autobench/s3_export.py. Keys is the keys and urls of the objects, Upload `_put`
-- and `_export_sync`, Publish `export_run`.
-- MlflowReport: src/autobench/mlflow_report.py. Spans is `transform_spans` and the names of spans,
-- Download `download_traces`, Parse `parse_traces`, Rows `span_rows`, Aggregate the filters and
-- `aggregate`.
-- RuntimeConfig: src/autobench/runtime_config.py with src/autobench/routes/config.py. Deployments:
-- src/autobench/deployments.py. Instances: src/autobench/instances.py.
-- Tests: the theorems at concrete inputs.
--
-- How they interact: a deploy records its LLM in Deployments, and `start_run` reads the record for
-- the run's Secret. A handler is called with the context that `require_caller_jwt` makes of the
-- caller's token, or with a client of the platform that bears the Service's own token. `_execute`
-- marks a run running, waits for `run_benchmark` under a deadline and
-- leaves the run terminal before it hands it to the export. `run_benchmark` gathers one `_one` for
-- each task; `_one` runs `_run_task` inside the semaphore under the task's deadline and appends
-- its result under a lock. `_run_task` calls the MCP session and the A2A client, which are one
-- record of operations that change an arbitrary world. The tasks interleave at their awaits: a
-- batch is the run and a phase for each task, and Step is what the event loop may do next; a task
-- that hangs takes no further step. What the event loop decides is an argument: in the MCP session
-- and in `_execute`, which wait ends in time and which cancellation meets it; in the A2A client and
-- in the settle loop, which attempt, read or sleep is cancelled; in a task, that any operation of
-- its clients may raise a cancellation. Where a comment names no cancellation, as at the handlers,
-- none is modelled.
--
-- Numbers: times, ports and counts are natural numbers in a unit that is left open, so a
-- difference of two clock readings stops at 0. A rate is kept as a fraction. The report's floats
-- are an arbitrary type with the operations that are used. A raised exception is its text, or its
-- `repr` where it is no Exception; the deadline of `asyncio.timeout` has a case of its own.
--
-- Fuel: the settle loop recurs on a number of reads, and two more than the seconds that it is
-- given are enough, since each sleep takes a unit of time at least. The loop of `send_prompt`
-- recurs on the number of attempts that are left, the reading back of the probe on a number of
-- rounds (one more than the ticks of its twenty seconds are enough), the digits of a number on
-- the number itself, the
-- pages of MLflow on a number of pages, the depth of a span on the 32 hops that the source allows,
-- and every other loop on its list.
--
-- Not modelled: the set-up of the application, the command line, the generators of documents and
-- the charts are glue around third-party code. PyJWT, httpx, urllib and base64 are arguments: a
-- token is read and verified by functions of an argument, and a server answers a request in a
-- world that it may change. `asyncio.wait` and `asyncio.gather`, `str.format`, `json.loads`, `:g`,
-- `repr`, the regular expressions of the scrubbing and hashes are arguments too, and so are the S3
-- client, JSON and Parquet encoding, the exporter of spans, the REST client of MLflow, the
-- operations on floats and the checks of pydantic. The texts that only a log or another library's
-- exception holds are left out. The routes that list the catalog, and costlib.py, are not part of
-- the development.
pub mod Prelude
pub mod Models
pub mod Runner
pub mod Benchmarks
pub mod Routes
pub mod PublicErrors
pub mod S3Export
pub mod Tests
pub mod MlflowReport
pub mod RuntimeConfig
pub mod Deployments
pub mod Instances
pub mod Auth
pub mod Rossoctl
pub mod Reference
