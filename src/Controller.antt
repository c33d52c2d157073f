-- ===== src/Controller.antt =====
-- internal/controller: what the elected controller does with ScaledObjects, their HPAs and the
-- trainer Jobs.
pub mod Recovery
pub mod Jobs
pub mod Reconcile
mod Tests
