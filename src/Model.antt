-- ===== src/Model.antt =====
-- internal/model: the data that the workflow engine and its activities exchange.
mod Json
mod Output
mod Profile
mod Step
pub use Json.*
pub use Output.*
pub use Profile.*
pub use Step.*
