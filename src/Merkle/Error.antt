-- ===== src/Merkle/Error.antt =====
-- The errors of crates/enclave-os-merkle/src/error.rs. The texts that three of them carry for the
-- log are left out.
use privasys_enclave_os_mini.Common.{ℕ}

-- `panic` is the model's own: an index out of bounds, which stops the program.
-- A backend's code is an `i32`, by its two's complement.
pub data MerkleError : Type 0 where
  backend_error : ℕ → MerkleError
  corrupted missing invalid panic : MerkleError
