-- ===== src/Vault/Audit.antt =====
-- The reading of a key's audit log, `read` of crates/enclave-os-vault/src/audit.rs.
pub mod Pages
mod Examples
use privasys_enclave_os_mini.Common.{
  ℕ, zero, suc, ◌-◌, Bool, true, false, Option, none, some, List, [], ◌∷◌, ◌++◌, ltb, length,
}
use privasys_enclave_os_mini.Common.Bytes.{Bytes}
use privasys_enclave_os_mini.Common.Results.{Result, ok, err}
use privasys_enclave_os_mini.Vault.Types.{String}
use privasys_enclave_os_mini.Vault.Records.{AuditEntry, VaultError}
use privasys_enclave_os_mini.Vault.Keys.{VaultKv, audit_key}

abbrev pub Page : Type 0
Page = Result VaultError (List AuditEntry × ℕ)

-- One round of the loop, behind its condition, with what the store answers and the loop's rest.
unfoldable pub round :
    (more : Bool)
    → Result VaultError (Option Bytes)
    → (Option Bytes → Page)
    → List AuditEntry
    → ℕ
    → Page
round false got go out seq = ok (out, seq)
round true (err e) go out seq = err e
round true (ok found) go out seq = go found

module _ {Store : Type 0} (kv : VaultKv Store) where
  -- An entry that is missing or cannot be decoded is passed over.
  unfoldable pub push_found : List AuditEntry → Option Bytes → List AuditEntry
  push_found out none = out
  push_found out (some bytes) = elim (kv.entry_from_slice bytes) [
    | none ↦ out
    | some entry ↦ out ++ entry ∷ []
  ]

  -- The loop, with `left` numbers up to `next_seq`.
  unfoldable pub read_loop : Store → String → (left seq limit : ℕ) → List AuditEntry → Page
  read_loop s handle zero seq limit out = ok (out, seq)
  read_loop s handle (suc left) seq limit out =
      round (ltb (length out) limit) (kv.get s (audit_key handle seq))
        (λ found. read_loop s handle left (suc seq) limit (push_found out found)) out seq

  unfoldable pub read : Store → String → (next_seq since_seq limit : ℕ) → Page
  read s handle next_seq since_seq limit =
      read_loop s handle (next_seq - since_seq) since_seq limit []
