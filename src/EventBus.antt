-- ===== src/EventBus.antt =====
-- subsys/event_bus: events from publishers to the subscribers of a channel.
pub mod AcceptanceCache
pub mod Payload
