-- ===== src/Protocol/Success.antt =====
-- ProtocolHandler.cpp and main.cpp against a server that serves: what a run comes to.
pub mod Rules
pub mod Server
pub mod Exchange
pub mod Status
pub mod Upload
pub mod Refusal
pub mod Delivery
pub mod KeyExchange
pub mod Registration
pub mod Client
