-- ===== src/Skills.antt =====
-- The skills of active_agent_platform: skills.py.
pub mod Contract
pub mod Registry
pub mod Resolver
