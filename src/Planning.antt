-- ===== src/Planning.antt =====
-- What stands between a plan and its execution.
pub mod Acyclic
pub mod Validation
pub mod Grants
pub mod Risk
