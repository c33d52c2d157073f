-- ===== src/Forecaster.antt =====
-- internal/forecaster: what turns the observations of a workload into a guarded forecast.
pub mod Detect
pub mod Service
pub mod Models
mod Tests
