-- ===== src/Dag.antt =====
-- internal/workflow/dag.go: `DAGWorkflow`, which runs the steps of a workflow.
pub mod Data
pub mod Ready
pub mod FanOut
pub mod Resolve
pub mod Steps
pub mod Exit
pub mod Rounds
pub mod Workflow
pub mod Progress
pub mod Held
pub mod Final
pub mod Unasked
pub mod Credentials
pub mod Cleaned
