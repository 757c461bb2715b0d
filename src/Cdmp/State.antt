-- ===== src/Cdmp/State.antt =====
-- subsys/cdmp/services/cdmp_state_service.h and .cpp: the records that the units of a network share.
pub mod Local
pub mod Remote
pub mod Service
pub mod Handlers
pub mod Changes
pub mod Receive
