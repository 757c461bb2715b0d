-- ===== src/Smp/Can.antt =====
-- subsys/smp/can: SMP packets over CAN frames.
pub mod FrameFormat
pub mod IdLayout
pub mod Framer
pub mod Reassembler
pub mod Pacer
pub mod Receiver
pub mod Sender
pub mod Transport
