-- ===== src/Runtime.antt =====
-- What the client runs on: the operating system and the cryptographic library as parameters, and
-- the actions of the code over them.
pub mod Os
pub mod Library
pub mod Exec
pub mod World
pub mod Trace
