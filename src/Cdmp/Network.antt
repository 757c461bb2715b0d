-- ===== src/Cdmp/Network.antt =====
-- subsys/cdmp/services/cdmp_network_service.h and .cpp: discovery, the ID claim and the table of the other
-- units. `Devices` has the table, `Service` the state and the table's events, `Claim` the discovery and
-- the claim, `Frames` the frames that come in.
pub mod Devices
pub mod Service
pub mod Claim
pub mod Frames
