-- ===== src/Cdmp/Messages.antt =====
-- subsys/cdmp/models/messages: the payloads of the CDMP frames.
pub mod Codec
pub mod Network
pub mod Command
pub mod State
