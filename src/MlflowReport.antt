-- ===== src/MlflowReport.antt =====
-- mlflow_report.py: the traces of the runs are read back from MLflow, and made into the records and
-- the span rows of a report.
pub mod Spans
pub mod Download
pub mod Parse
pub mod Rows
pub mod Aggregate
