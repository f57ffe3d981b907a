-- ===== src/Workflow.antt =====
-- The workflows of active_agent_platform: workflow.py and workflow_runs.py.
pub mod Graph
pub mod Validator
pub mod Registry
pub mod Runs
