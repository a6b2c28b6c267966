-- ===== src/Merkle.antt =====
-- The sparse Merkle store of crates/enclave-os-merkle.
pub mod Hash
pub mod Error
pub mod Proof
pub mod Node
pub mod Cache
pub mod Session
pub mod Store
mod Examples
