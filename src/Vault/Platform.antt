-- ===== src/Vault/Platform.antt =====
-- What the vault's policy calls outside itself: the parsers of certificates and quotes, the
-- attestation servers, the vault's token verifier, Unicode case mapping, the hash and the clock.
use privasys_enclave_os_mini.Common.{ℕ, Option, List}
use privasys_enclave_os_mini.Common.Bytes.{Bytes}
use privasys_enclave_os_mini.Vault.Types.{String, ApprovalClaims, QuoteIdentity}

-- The evidence and the OID claims of a dissected peer certificate.
pub record PeerCert : Type 0 where
  pub evidence : Bytes
  pub oid_claims : List (String × String)

pub record Platform : Type 0 where
  pub dissect_peer_cert : (der quote : Bytes) → Option PeerCert
  pub verify_quote_statuses : Bytes → List String → Option (List String)
  pub parse_quote : Bytes → Option QuoteIdentity
  pub to_lowercase : String → String
  pub verify_and_decode : String → Option ApprovalClaims
  pub vault_op_binding : (handle digest : String) → ℕ → String → ℕ → String
  pub get_current_time : Option ℕ
