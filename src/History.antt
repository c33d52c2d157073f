-- ===== src/History.antt =====
-- internal/history: the repair of a training window from the workload's own source.
pub mod Plan
pub mod Repair
mod Tests
