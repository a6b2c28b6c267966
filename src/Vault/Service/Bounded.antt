-- ===== src/Vault/Service/Bounded.antt =====
-- The invariant of the stored key records under the handlers of crates/enclave-os-vault/src/lib.rs.
use privasys_enclave_os_mini.Common.{
  ℕ, ◌≤◌, ◌≡◌, refl, sym, ap, ◌∙◌, ◌⊎◌, inl, inr, none, some, arith, length, Option-cases,
}
use mathlib.Core.Path.{subst}
use privasys_enclave_os_mini.Common.Bytes.{Bytes, byte_at}
use privasys_enclave_os_mini.Common.Results.{Result, ok, err, ok_or}
use privasys_enclave_os_mini.Vault.Types.{String, RequestContext}
use privasys_enclave_os_mini.Vault.Platform.{Platform}
use privasys_enclave_os_mini.Vault.Records.{
  KeyRecord, AuditOp, AuditCaller, AuditDecision, AuditReason, VaultError, key_not_found,
  corrupt_record,
}
use privasys_enclave_os_mini.Vault.Keys.{
  VaultKv, Handle, after, record_key, audit_key, owner_index_key, saturating_add, read_record,
  load_record, append, save, audit_and_save, deny, or_deny,
}

-- What the handlers rely on of the store and the codec: a write, failed or not, leaves every other
-- key as it was and the written one as it was or with the new value; a deletion likewise; and a
-- record is read back from its encoding.
pub record IsVaultKv {Store : Type 0} (kv : VaultKv Store) : Type 0 where
  pub get-put :
      (s : Store) (key value other : Bytes)
      → (kv.get (kv.put s key value).1 other ≡ kv.get s other)
        ⊎ ((other ≡ key) × (kv.get (kv.put s key value).1 other ≡ ok (some value)))
  pub get-delete :
      (s : Store) (key other : Bytes)
      → (kv.get (kv.delete s key).1 other ≡ kv.get s other)
        ⊎ (kv.get (kv.delete s key).1 other ≡ ok none)
  pub from_slice-to_vec :
      (key : KeyRecord) (bytes : Bytes)
      → kv.record_to_vec key ≡ some bytes
      → kv.record_from_slice bytes ≡ some key

-- A record stands under its own handle, with at most 16 pending profiles.
abbrev pub IsKey : String → KeyRecord → Type 0
IsKey handle key = (key.handle ≡ handle) × (length key.pending_profiles ≤ 16)

module _ {Store : Type 0} (platform : Platform) (kv : VaultKv Store) where
  abbrev pub IsVault : Store → Type 0
  IsVault s =
      (handle : String) (key : KeyRecord)
      → load_record platform kv handle s ≡ ok key
      → IsKey handle key

  -- From a sound store: the store stays sound, and a result has the property.
  abbrev pub Ensures : {A : Type 0} → (A → Type 0) → Result VaultError A × Store → Type 0
  Ensures {A} P (r, s) = IsVault s × ((a : A) → r ≡ ok a → P a)

  pub after-Ensures :
      {A B : Type 0} (P : A → Type 0) (Q : B → Type 0) (r : Result VaultError A × Store)
      (f : A → Handle Store B)
      → Ensures P r
      → ((a : A) (s : Store) → IsVault s → P a → Ensures Q (f a s))
      → Ensures Q (after r f)
  after-Ensures P Q (ok a, s) f (hs, h) k = k a s hs (h a refl)
  after-Ensures P Q (err e, s) f (hs, h) k = (hs, λ b q. absurd (cc q))

  -- A step of which only the store matters here.
  abbrev pub Keeps : {A : Type 0} → Result VaultError A × Store → Type 0
  Keeps r = Ensures (λ _. Unit {0}) r

  pub sound : {A : Type 0} (r : Result VaultError A) (s : Store) → IsVault s → Keeps (r, s)
  sound r s hs = (hs, λ _ _. tt)

  pub load-Ensures :
      (handle : String) (s : Store)
      → IsVault s
      → Ensures (IsKey handle) (load_record platform kv handle s, s)
  load-Ensures handle s hs = (hs, λ key q. hs handle key q)

  load_record-get :
      (handle : String) (s s' : Store)
      → kv.get s' (record_key handle) ≡ kv.get s (record_key handle)
      → load_record platform kv handle s' ≡ load_record platform kv handle s
  unfolding load_record
  load_record-get handle s s' e = ap (read_record platform kv) e

  pub load_record-some :
      (handle : String) (s : Store) (bytes : Bytes) (key : KeyRecord)
      → kv.get s (record_key handle) ≡ ok (some bytes)
      → kv.record_from_slice bytes ≡ some key
      → load_record platform kv handle s ≡ ok key
  unfolding load_record
  load_record-some handle s bytes key e q =
      ap (read_record platform kv) e ∙ ap (λ o. ok_or o corrupt_record) q

  pub load_record-none :
      (handle : String) (s : Store)
      → kv.get s (record_key handle) ≡ ok none
      → load_record platform kv handle s ≡ err key_not_found
  unfolding load_record
  load_record-none handle s e = ap (read_record platform kv) e

  module _ (laws : IsVaultKv kv) where
    -- A write to the audit log or the index touches no record.
    put_elsewhere :
        (s : Store) (at_key value : Bytes)
        → ((handle : String) → ¬ (record_key handle ≡ at_key))
        → IsVault s
        → IsVault (kv.put s at_key value).1
    put_elsewhere s at_key value other hs handle key e =
        elim (laws.get-put s at_key value (record_key handle)) [
          | inr (same, _) ↦ absurd (other handle same)
          | inl kept ↦ hs handle key (sym (load_record-get handle s _ kept) ∙ e)
        ]

    record_key-audit_key : (handle h : String) (seq : ℕ) → ¬ (record_key handle ≡ audit_key h seq)
    unfolding record_key audit_key
    record_key-audit_key handle h seq e = absurd (omega (arith, ap (λ b. byte_at b 0) e))

    record_key-owner_index_key : (handle sub : String) → ¬ (record_key handle ≡ owner_index_key sub)
    unfolding record_key owner_index_key
    record_key-owner_index_key handle sub e = absurd (omega (arith, ap (λ b. byte_at b 0) e))

    pub record_key-inj : (a b : String) → record_key a ≡ record_key b → a ≡ b
    unfolding record_key
    record_key-inj a b e = cc e

    append-Ensures :
        (key : KeyRecord) (op : AuditOp) (caller : AuditCaller) (decision : AuditDecision)
        (why : AuditReason) (s : Store)
        → IsVault s
        → IsKey key.handle key
        → Ensures (λ k. IsKey k.handle k) (append platform kv key op caller decision why s)
    unfolding append
    append-Ensures key op caller decision why s hs (h, few) =
        after-Ensures _ _ (_, s) _ (sound _ s hs)
          λ bytes s1 h1 u.
            after-Ensures _ _ (kv.put s1 (audit_key key.handle key.audit_next_seq) bytes) _
              (
                put_elsewhere s1 (audit_key key.handle key.audit_next_seq) bytes
                    (λ handle. record_key-audit_key handle key.handle key.audit_next_seq) h1,
                λ _ _. tt,
              )
              λ u2 s2 h2 v. (h2, λ k q. counted k q)
      where
        counted :
            (k : KeyRecord)
            → ◌≡◌ {A = Result VaultError KeyRecord}
                (ok (record key { audit_next_seq = saturating_add 64 key.audit_next_seq 1 }))
                (ok k)
            → IsKey k.handle k
        counted k q =
            let k_eq : record key { audit_next_seq = saturating_add 64 key.audit_next_seq 1 } ≡ k =
              cc q in
            subst (λ x. IsKey x.handle x) k_eq (refl, few)

    save-Keeps :
        (key : KeyRecord) (s : Store)
        → IsVault s
        → IsKey key.handle key
        → Keeps (save platform kv key s)
    unfolding save
    save-Keeps key s hs good = elim (Option-cases (kv.record_to_vec key)) [
      | inl failed ↦ rw failed (hs, λ _ _. tt)
      | inr (bytes, encoded) ↦ rw encoded (written bytes encoded, λ _ _. tt)
    ]
      where
        written :
            (bytes : Bytes)
            → kv.record_to_vec key ≡ some bytes
            → IsVault (kv.put s (record_key key.handle) bytes).1
        written bytes encoded handle k e =
            elim (laws.get-put s (record_key key.handle) bytes (record_key handle)) [
              | inl kept ↦ hs handle k (sym (load_record-get handle s _ kept) ∙ e)
              | inr (same, now) ↦
                  let read =
                    load_record-some handle _ bytes key now
                      (laws.from_slice-to_vec key bytes encoded) in
                  let k_eq : key ≡ k = cc (read, e) in
                  subst (IsKey handle) k_eq (sym (record_key-inj handle key.handle same), good.1)
            ]

    pub audit_and_save-Keeps :
        (key : KeyRecord) (op : AuditOp) (caller : AuditCaller) (decision : AuditDecision)
        (why : AuditReason) (s : Store)
        → IsVault s
        → IsKey key.handle key
        → Keeps (audit_and_save platform kv key op caller decision why s)
    unfolding audit_and_save
    audit_and_save-Keeps key op caller decision why s hs good =
        after-Ensures _ _ (append platform kv key op caller decision why s) _
          (append-Ensures key op caller decision why s hs good)
          λ k s1 h1 good1. save-Keeps k s1 h1 good1

    pub deny-Keeps :
        {A : Type 0} (key : KeyRecord) (op : AuditOp) (ctx : RequestContext) (e : VaultError)
        (s : Store)
        → IsVault s
        → IsKey key.handle key
        → Keeps (deny platform kv {A = A} key op ctx e s)
    unfolding deny
    deny-Keeps key op ctx e s hs good = ((audit_and_save-Keeps key op _ _ _ s hs good).0, λ _ _. tt)

    pub or_deny-Keeps :
        {A : Type 0} (key : KeyRecord) (op : AuditOp) (ctx : RequestContext)
        (r : Result VaultError A) (s : Store)
        → IsVault s
        → IsKey key.handle key
        → Keeps (or_deny platform kv key op ctx r s)
    unfolding or_deny
    or_deny-Keeps key op ctx (ok a) s hs good = (hs, λ _ _. tt)
    or_deny-Keeps key op ctx (err e) s hs good = deny-Keeps key op ctx e s hs good

    pub delete-IsVault :
        (s : Store) (handle : String) → IsVault s → IsVault (kv.delete s (record_key handle)).1
    delete-IsVault s gone hs handle key e =
        elim (laws.get-delete s (record_key gone) (record_key handle)) [
          | inl kept ↦ hs handle key (sym (load_record-get handle s _ kept) ∙ e)
          | inr now ↦ absurd (cc (load_record-none handle _ now, e))
        ]

    pub put_index-IsVault :
        (s : Store) (sub : String) (value : Bytes)
        → IsVault s
        → IsVault (kv.put s (owner_index_key sub) value).1
    put_index-IsVault s sub value hs =
        put_elsewhere s (owner_index_key sub) value
          (λ handle. record_key-owner_index_key handle sub) hs
