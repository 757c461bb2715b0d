-- ===== src/Sensor.antt =====
-- domain/sensor_domain: the sensors of a unit.
pub mod Order
