-- ===== src/Receiver.antt =====
-- receiver/otlpsingleport: the OTLP receiver on one port.
pub mod Message
pub mod Codes
pub mod Refusals
pub mod Rpc
pub mod Config
pub mod Response
pub mod Http
pub mod Registry
mod Tests
