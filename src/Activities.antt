-- ===== src/Activities.antt =====
-- internal/activity: the activities that work in a sandbox.
pub mod Box
pub mod Names
pub mod Structured
pub mod Execute
pub mod Status
pub mod Verify
pub mod Preflight
