-- ===== src/Vault/Keys.antt =====
-- The store of key records behind the handlers of crates/enclave-os-vault/src/lib.rs, and the audit log
-- of audit.rs. The sealed store and the JSON codec are a parameter. The lock and the store's global
-- cell, which the code takes before each access, are left out.
use privasys_enclave_os_mini.Common.{
  ℕ, zero, suc, ◌+◌, ◌-◌, ◌/◌, ◌%◌, ◌^◌, Bool, Option, none, some, List, [], ◌∷◌, ◌++◌, ltb, min,
}
use privasys_enclave_os_mini.Common.Bytes.{Bytes}
use privasys_enclave_os_mini.Common.Results.{Result, ok, err, ok_or}
use privasys_enclave_os_mini.Vault.Types.{String, Principal, oidc, fido2, tee, RequestContext}
use privasys_enclave_os_mini.Vault.Platform.{Platform}
use privasys_enclave_os_mini.Vault.Records.{
  KeyRecord, AuditEntry, AuditOp, AuditCaller, oidc_caller, tee_caller, anonymous, AuditDecision,
  denied, AuditReason, refused_for, VaultError, key_not_found, corrupt_record, serialise_error,
}

-- The sealed store, with the codecs of what is kept in it.
pub record VaultKv (Store : Type 0) : Type 0 where
  pub get : Store → Bytes → Result VaultError (Option Bytes)
  pub put : Store → Bytes → Bytes → Result VaultError (Unit {0}) × Store
  pub delete : Store → Bytes → Result VaultError (Unit {0}) × Store
  pub record_to_vec : KeyRecord → Option Bytes
  pub record_from_slice : Bytes → Option KeyRecord
  pub entry_to_vec : AuditEntry → Option Bytes
  pub entry_from_slice : Bytes → Option AuditEntry
  pub handles_to_vec : List String → Option Bytes
  pub handles_from_slice : Bytes → Option (List String)

unfoldable pub record_key : String → Bytes
record_key handle = b'k' ∷ b'e' ∷ b'y' ∷ b':' ∷ handle

unfoldable pub owner_index_key : String → Bytes
owner_index_key owner_sub = b'i' ∷ b'n' ∷ b'd' ∷ b'e' ∷ b'x' ∷ b':' ∷ owner_sub

-- `{:020}`: the number in decimal, on `width` digits.
unfoldable pub digits : (width : ℕ) → ℕ → Bytes
digits zero v = []
digits (suc width) v = digits width (v / 10) ++ (b'0' + v % 10) ∷ []

unfoldable pub audit_key : String → ℕ → Bytes
audit_key handle seq = b'a' ∷ b'u' ∷ b'd' ∷ b'i' ∷ b't' ∷ b':' ∷ (handle ++ b':' ∷ digits 20 seq)

-- `saturating_add` on `bits` bits
unfoldable pub saturating_add : (bits : ℕ) → ℕ → ℕ → ℕ
saturating_add bits a b = min (a + b) (2 ^ bits - 1)

unfoldable pub now_secs : Platform → ℕ
now_secs platform = elim platform.get_current_time [ none ↦ 0 | some t ↦ t ]

unfoldable pub expired : Platform → KeyRecord → Bool
expired platform key = ltb key.expires_at (now_secs platform)

unfoldable pub owner_oidc_sub : Principal → Option String
owner_oidc_sub (oidc issuer sub required_roles) = some sub
owner_oidc_sub (tee profile) = none
owner_oidc_sub (fido2 rp_id credential_id_b64) = none

unfoldable pub caller_str : RequestContext → AuditCaller
caller_str ctx = elim ctx.oidc_claims [
  | some c ↦ oidc_caller c.sub
  | none ↦ elim ctx.peer_cert_der [ some der ↦ tee_caller | none ↦ anonymous ]
]

-- A step of a handler. An error ends the handler with that answer; the store stays as it is then.
abbrev pub Handle : Type 0 → Type 0 → Type 0
Handle Store A = Store → Result VaultError A × Store

abbrev pub after :
    {Store A B : Type 0}
    → Result VaultError A × Store
    → (A → Handle Store B)
    → Result VaultError B × Store
after (ok a, s) f = f a s
after (err e, s) f = (err e, s)

infixl 5 ◌>>=◌ ◌>>◌
abbrev pub ◌>>=◌ : {Store A B : Type 0} → Handle Store A → (A → Handle Store B) → Handle Store B
◌>>=◌ m f s = after (m s) f

abbrev pub ◌>>◌ : {Store B : Type 0} → Handle Store (Unit {0}) → Handle Store B → Handle Store B
m >> k = m >>= λ _. k

abbrev pub pure : {Store A : Type 0} → A → Handle Store A
pure a s = (ok a, s)

abbrev pub lift : {Store A : Type 0} → Result VaultError A → Handle Store A
lift r s = (r, s)

-- `let _ = m`: whatever it gives is dropped.
abbrev pub ignore : {Store A : Type 0} → Handle Store A → Handle Store (Unit {0})
ignore m s = (ok tt, (m s).1)

module _ {Store : Type 0} (platform : Platform) (kv : VaultKv Store) where
  -- What a read of the store amounts to.
  unfoldable pub read_record : Result VaultError (Option Bytes) → Result VaultError KeyRecord
  read_record (err e) = err e
  read_record (ok none) = err key_not_found
  read_record (ok (some bytes)) = ok_or (kv.record_from_slice bytes) corrupt_record

  unfoldable pub load_record : String → Store → Result VaultError KeyRecord
  unfolding read_record
  load_record handle s = read_record (kv.get s (record_key handle))

  abbrev pub load : String → Handle Store KeyRecord
  load handle s = (load_record handle s, s)

  -- `audit::append`: the record comes back with the next sequence number.
  unfoldable pub append :
      KeyRecord → AuditOp → AuditCaller → AuditDecision → AuditReason → Handle Store KeyRecord
  append key op caller decision why = do
    bytes ← lift (
        ok_or
          (kv.entry_to_vec (record {
            seq = key.audit_next_seq;
            ts = now_secs platform;
            op = op;
            caller = caller;
            decision = decision;
            reason = why;
          }))
          serialise_error)
    (λ s. kv.put s (audit_key key.handle key.audit_next_seq) bytes)
    pure (record key { audit_next_seq = saturating_add 64 key.audit_next_seq 1 })

  unfoldable pub save : KeyRecord → Handle Store (Unit {0})
  save key = do
    bytes ← lift (ok_or (kv.record_to_vec key) serialise_error)
    (λ s. kv.put s (record_key key.handle) bytes)

  unfoldable pub audit_and_save :
      KeyRecord → AuditOp → AuditCaller → AuditDecision → AuditReason → Handle Store (Unit {0})
  audit_and_save key op caller decision why = do
    audited ← append key op caller decision why
    save audited

  -- The refusal is put into the audit log as far as that goes, and is the answer.
  unfoldable pub deny :
      {A : Type 0} → KeyRecord → AuditOp → RequestContext → VaultError → Handle Store A
  deny key op ctx e = do
    ignore (audit_and_save key op (caller_str ctx) denied (refused_for e))
    lift (err e)

  -- `if let Err(e) = checked { let _ = audit_and_save(..); return Error(e) }`
  unfoldable pub or_deny :
      {A : Type 0} → KeyRecord → AuditOp → RequestContext → Result VaultError A → Handle Store A
  or_deny key op ctx (ok a) = pure a
  or_deny key op ctx (err e) = deny key op ctx e
