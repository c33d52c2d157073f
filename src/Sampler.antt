-- ===== src/Sampler.antt =====
-- internal/sampler: a pass over the workloads, when a workload is due, and how missing history is fetched.
pub mod Backfill
pub mod Due
pub mod Run
mod Tests
