-- ===== src/Routes.antt =====
-- src/autobench/routes: what the HTTP routes do with a run, a benchmark and the MLflow server.
pub mod Reports
pub mod Finish
pub mod Mlflow
pub mod Execute
pub mod Start
pub mod Settle
pub mod Platform
pub mod Deploy
