-- ===== src/ScaledObject.antt =====
-- internal/scaledobject: from a KEDA ScaledObject to the workloads that it asks for.
pub mod Input
pub mod Days
pub mod Fields
pub mod Parser
pub mod Fixtures
mod Tests
