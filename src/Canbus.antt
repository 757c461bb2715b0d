-- ===== src/Canbus.antt =====
-- subsys/canbus: identifiers and filters; domain/canbus_domain: signals.
pub mod Filter
pub mod Signal
