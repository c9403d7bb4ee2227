-- ===== src/Benchmarks.antt =====
-- src/autobench/benchmarks: the catalog of runnable benchmarks, and what a deploy of one creates.
pub mod Env
pub mod Definition
pub mod Requests
pub mod Catalog
