-- ===== src/Dfu.antt =====
-- subsys/dfu: the update of the device's firmware.
pub mod Confirmation
pub mod Identity
