-- ===== src/Events.antt =====
-- The event layer of active_agent_platform/events: durable delivery and consumption.
pub mod Retry
pub mod Inbox
pub mod Message
pub mod Outbox
pub mod Subscription
