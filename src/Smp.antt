-- ===== src/Smp.antt =====
-- subsys/smp: the SMP header and the CAN transport.
pub mod Header
pub mod Can
