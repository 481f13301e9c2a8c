-- ===== src/Validate.antt =====
-- internal/workflow/validate.go
pub mod Errors
pub mod Names
pub mod Kahn
pub mod Structure
pub mod Fields
pub mod Upstream
pub mod Parsed
pub mod Refs
