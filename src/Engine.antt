-- ===== src/Engine.antt =====
-- The activities, inputs and signals of internal/workflow/step.go, and what Temporal gives a
-- workflow: it runs activities, hands in signals, and cancels.
mod Inputs
mod Calls
mod Answers
pub mod Monad
pub use Inputs.*
pub use Calls.*
pub use Answers.*
