-- ===== src/Vault/Service/Promoted/Saved.antt =====
-- What a successful `audit_and_save` of crates/enclave-os-vault/src/lib.rs stores.
use privasys_enclave_os_mini.Common.{◌+◌, ◌-◌, ◌^◌, min, ◌≡◌, refl, sym, ap, Option, none, some}
use mathlib.Core.Path.{subst}
use privasys_enclave_os_mini.Common.Bytes.{Bytes}
use privasys_enclave_os_mini.Common.Results.{Result, ok, err, ok_or}
use privasys_enclave_os_mini.Vault.Platform.{Platform}
use privasys_enclave_os_mini.Vault.Records.{
  KeyRecord, AuditOp, AuditCaller, AuditDecision, AuditReason, VaultError, serialise_error,
}
use privasys_enclave_os_mini.Vault.Keys.{
  VaultKv, Handle, after, saturating_add, record_key, audit_key, append, save, audit_and_save,
}

-- A step that came to a result, with the store that it left.
pub after-done :
    {Store A B : Type 0} (r : Result VaultError A × Store) (f : A → Handle Store B) (b : B)
    → (after r f).0 ≡ ok b
    → (a : A) × (r.0 ≡ ok a) × ((f a r.1).0 ≡ ok b) × (after r f ≡ f a r.1)
after-done (ok a, s) f b e = (a, refl, e, refl)
after-done (err x, s) f b e = absurd (cc e)

ok_or-ok : {A : Type 0} (o : Option A) (x : VaultError) (a : A) → ok_or o x ≡ ok a → o ≡ some a
ok_or-ok none x a e = absurd (cc e)
ok_or-ok (some b) x a e = cc e

module _ {Store : Type 0} (platform : Platform) (kv : VaultKv Store) where
  abbrev pub counted : KeyRecord → KeyRecord
  counted key = record key { audit_next_seq = min (key.audit_next_seq + 1) (2 ^ 64 - 1) }

  append-counted :
      (key : KeyRecord) (op : AuditOp) (caller : AuditCaller) (decision : AuditDecision)
      (why : AuditReason) (s : Store) (k : KeyRecord)
      → (append platform kv key op caller decision why s).0 ≡ ok k
      → k ≡ counted key
  unfolding append saturating_add
  append-counted key op caller decision why s k e = by_coded _ e
    where
      put_at : Bytes → Result VaultError (Unit {0}) × Store
      put_at bytes = kv.put s (audit_key key.handle key.audit_next_seq) bytes

      by_put :
          (r : Result VaultError (Unit {0}) × Store)
          → (after r λ _ s'. (ok (counted key), s')).0 ≡ ok k
          → k ≡ counted key
      by_put (ok u, s') q = cc q
      by_put (err x, s') q = absurd (cc q)

      by_coded :
          (coded : Result VaultError Bytes)
          → (after
              (coded, s)
              λ bytes s'.
                after
                  (kv.put s' (audit_key key.handle key.audit_next_seq) bytes)
                  λ _ s''. (ok (counted key), s'')).0
            ≡ ok k
          → k ≡ counted key
      by_coded (ok bytes) q = by_put (put_at bytes) q
      by_coded (err x) q = absurd (cc q)

  -- The step stores the record with the next sequence number of the audit log.
  abbrev pub IsSaved : KeyRecord → Store → Type 0
  IsSaved k final =
      (s : Store) × (bytes : Bytes) × (kv.record_to_vec k ≡ some bytes)
      × ((kv.put s (record_key k.handle) bytes).0 ≡ ok tt)
      × ((kv.put s (record_key k.handle) bytes).1 ≡ final)

  save-IsSaved :
      (k : KeyRecord) (s : Store)
      → (save platform kv k s).0 ≡ ok tt
      → IsSaved k (save platform kv k s).1
  unfolding save
  save-IsSaved k s e =
      let (bytes, coded, e1, whole) =
        after-done (ok_or (kv.record_to_vec k) serialise_error, s) _ tt e in
      (s, bytes, ok_or-ok _ _ bytes coded, e1, ap (λ r. r.1) (sym whole))

  pub audit_and_save-IsSaved :
      (key : KeyRecord) (op : AuditOp) (caller : AuditCaller) (decision : AuditDecision)
      (why : AuditReason) (s : Store)
      → (audit_and_save platform kv key op caller decision why s).0 ≡ ok tt
      → IsSaved (counted key) (audit_and_save platform kv key op caller decision why s).1
  unfolding audit_and_save
  audit_and_save-IsSaved key op caller decision why s e =
      let (k, appended, e1, whole) =
        after-done (append platform kv key op caller decision why s) _ tt e in
      let s1 = (append platform kv key op caller decision why s).1 in
      subst (λ final. IsSaved (counted key) final) (ap (λ r. r.1) (sym whole))
        (subst (λ x. IsSaved x (save platform kv k s1).1)
          (append-counted key op caller decision why s k appended) (save-IsSaved k s1 e1))
