-- ===== src/Vault.antt =====
-- crates/enclave-os-vault: who may do what to a key, and how a key's policy may change.
pub mod Types
pub mod Records
pub mod Texts
pub mod Platform
pub mod Caller
pub mod Approval
pub mod Conditions
pub mod Access
pub mod Update
pub mod Keys
pub mod Handlers
pub mod Audit
pub mod Service
mod Examples
