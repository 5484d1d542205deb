-- ===== src/Protocol.antt =====
-- ProtocolHandler.cpp and ProtocolHandler.h.
pub mod Message
pub mod Connection
pub mod Payload
pub mod Upload
pub mod Flow
pub mod Quiet
pub mod Order
pub mod Events
pub mod Defined
pub mod Success
