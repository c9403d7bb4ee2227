-- ===== src/Runner.antt =====
-- src/autobench/runner: what carries a run out.
pub mod Tracing
pub mod Clients
pub mod Prompt
pub mod Task
pub mod Batch
pub mod Benchmark
pub mod McpSession
pub mod A2aAgent
pub mod Registry
