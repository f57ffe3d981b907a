-- ===== src/Runtime.antt =====
-- active_agent_platform/runtime: supervision of the long-lived services.
pub mod Supervisor
