-- ===== src/Scheduling.antt =====
-- active_agent_platform/scheduling, the global admission policy, and scheduler.py.
pub mod Models
pub mod Policy
pub mod Scheduler
