-- ===== src/Harness.antt =====
-- py/harness: what the experiments share.
pub mod Runs
pub mod Metrics
pub mod Latency
pub mod Loadgen
pub mod Examples
