-- ===== src/Cdmp.antt =====
-- subsys/cdmp: the CAN device management protocol.
pub mod CanIds
pub mod Status
pub mod Messages
pub mod State
pub mod Transactions
pub mod Heartbeat
pub mod Commands
pub mod Network
