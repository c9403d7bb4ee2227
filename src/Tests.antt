-- ===== src/Tests.antt =====
-- Examples: the theorems at concrete runs, sessions, deploys and messages.
mod Samples
mod Batches
mod Runs
mod Sessions
mod Deploys
mod Messages
mod Exports
mod Reports
mod Configs
mod Accesses
mod Labels
mod Probes
