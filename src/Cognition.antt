-- ===== src/Cognition.antt =====
-- The services of active_agent_platform that decide what to think about: goals, the coordinator of
-- cognition cycles and the brain state.
pub mod Goals
pub mod State
pub mod Coordinator
