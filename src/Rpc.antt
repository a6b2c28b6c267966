-- ===== src/Rpc.antt =====
-- common/src/rpc.rs and its modules: the messages between the enclave and the host.
pub mod Method
pub mod Frame
pub mod Honest
mod Examples
