-- ===== src/Vault/Service/Promoted.antt =====
-- What a promotion of a pending profile in crates/enclave-os-vault/src/lib.rs rests on, what it stores,
-- and that it drops none of the OIDs that the key requires.
pub mod Record
mod Saved
use privasys_enclave_os_mini.Common.{
  ℕ, ◌+◌, ◌-◌, ◌^◌, min, ◌≡◌, refl, sym, ap, ◌∙◌, inl, inr, Bool, true, false, not, ◌&&◌, ◌||◌,
  Option, none, some, List, [], ◌∷◌, ◌++◌, ◌==◌, ==_iff, length, all, All, Bool-cases,
}
use mathlib.Core.Path.{subst}
use privasys_enclave_os_mini.Common.Tests.{and-true, or-true, true≢false}
use privasys_enclave_os_mini.Common.Bytes.{Bytes}
use privasys_enclave_os_mini.Common.Results.{Result, ok, err, ok_or}
use privasys_enclave_os_mini.Vault.Types.{
  String, AttestationProfile, OidRequirement, Principal, oidc, fido2, tee, RequestContext,
  ApprovalToken, promote_profile,
}
use privasys_enclave_os_mini.Vault.Texts.{str_eq, is_empty}
use privasys_enclave_os_mini.Vault.Texts.Equality.{str_eq-true, true-str_eq}
use privasys_enclave_os_mini.Vault.Platform.{Platform}
use privasys_enclave_os_mini.Vault.Access.{evaluate_op}
use privasys_enclave_os_mini.Vault.Update.{tee_oids, requires_oid, key_required_oids}
use privasys_enclave_os_mini.Vault.Update.Kept.{among, every_tee_requires, key_required_oids_lem}
use privasys_enclave_os_mini.Vault.Records.{
  PendingProfile, KeyRecord, AuditOp, AuditCaller, AuditDecision, AuditReason, VaultError,
  VaultResponse, serialise_error, pending_profile_promoted, allowed, promote_pending, promoted_to,
}
use privasys_enclave_os_mini.Vault.Keys.{
  VaultKv, Handle, after, saturating_add, load_record, record_key, audit_key, caller_str, append,
  save, audit_and_save, deny, or_deny,
}
use privasys_enclave_os_mini.Vault.Handlers.{
  permitted, find_id, remove_id, missing_oid, add_tee, profile_binding_digest,
}
use privasys_enclave_os_mini.Vault.Service.{
  binding_of, promoted, promote_complete, promote_found, handle_promote_pending,
}
use privasys_enclave_os_mini.Vault.Service.Exported.{as_policy-ok, or_deny-ok}
use privasys_enclave_os_mini.Vault.Service.Promoted.Record.{
  missing_oid-none, promoted_record, promoted_record-keeps, implied, find_id-split,
}
use privasys_enclave_os_mini.Vault.Service.Promoted.Saved.{
  after-done, counted, IsSaved, audit_and_save-IsSaved,
}

module _ {Store : Type 0} (platform : Platform) (sha256_hex : Bytes → String)
    (kv : VaultKv Store) where
  abbrev Stores : KeyRecord → PendingProfile → ℕ → Store → Type 0
  Stores key p version final =
      (version ≡ min (key.policy_version + 1) (2 ^ 32 - 1))
      × (all (requires_oid p.profile.required_oids) (key_required_oids key.policy) ≡ true)
      × IsSaved platform kv (counted platform kv (promoted platform sha256_hex kv key p)) final

  answered_version :
      (key : KeyRecord) (p : PendingProfile) (version : ℕ)
      → ◌≡◌ {A = Result VaultError VaultResponse}
          (ok (pending_profile_promoted (promoted platform sha256_hex kv key p).policy_version))
          (ok (pending_profile_promoted version))
      → version ≡ min (key.policy_version + 1) (2 ^ 32 - 1)
  unfolding promoted add_tee saturating_add
  answered_version key p version q = sym (version_inj q)
    where
      version_inj :
          {a b : ℕ}
          → ◌≡◌ {A = Result VaultError VaultResponse}
              (ok (pending_profile_promoted a))
              (ok (pending_profile_promoted b))
          → a ≡ b
      version_inj q = cc q

  promote_complete-Stores :
      (key : KeyRecord) (p : PendingProfile) (ctx : RequestContext) (missing : Option String)
      (s : Store) (version : ℕ)
      → missing_oid p.profile.required_oids (key_required_oids key.policy) ≡ missing
      → (promote_complete platform sha256_hex kv key p ctx missing s).0
        ≡ ok (pending_profile_promoted version)
      → Stores key p version (promote_complete platform sha256_hex kv key p ctx missing s).1
  unfolding promote_complete deny
  promote_complete-Stores key p ctx (some oid) s version m e = absurd (cc e)
  promote_complete-Stores key p ctx none s version m e =
      let next = promoted platform sha256_hex kv key p in
      let why = promoted_to p.id (length next.policy.principals.tees - 1) in
      let (u, saved, answered, whole) =
        after-done (audit_and_save platform kv next promote_pending (caller_str ctx) allowed why s)
          _ _ e in
      (
        answered_version key p version answered,
        missing_oid-none p.profile.required_oids _ m,
        subst (λ final. IsSaved platform kv (counted platform kv next) final)
            (ap (λ r. r.1) (sym whole))
            (audit_and_save-IsSaved platform kv next promote_pending (caller_str ctx) allowed why s
              saved),
      )

  promote_found-Stores :
      (key : KeyRecord) (pending_id : ℕ) (ctx : RequestContext) (found : Option PendingProfile)
      (s : Store) (version : ℕ)
      → (promote_found platform sha256_hex kv key pending_id ctx found s).0
        ≡ ok (pending_profile_promoted version)
      → (p : PendingProfile) × (found ≡ some p)
        × Stores key p version (promote_found platform sha256_hex kv key pending_id ctx found s).1
  unfolding promote_found deny
  promote_found-Stores key pending_id ctx none s version e = absurd (cc e)
  promote_found-Stores key pending_id ctx (some p) s version e =
      (p, refl, promote_complete-Stores key p ctx _ s version refl e)

  -- The record that the code stores, with the pending profiles split at the promoted one.
  counted-promoted :
      (key : KeyRecord) (p : PendingProfile) (pre post : List PendingProfile)
      → remove_id p.id key.pending_profiles ≡ pre ++ post
      → counted platform kv (promoted platform sha256_hex kv key p) ≡ promoted_record key p pre post
  unfolding promoted add_tee saturating_add
  counted-promoted key p pre post removed =
      ap (λ l. record (promoted_record key p pre post) { pending_profiles = l }) removed

  -- A promotion succeeds only for a profile that stands among the stored record's pending ones, the
  -- first one with the id, and where the record's policy allows the caller the promotion under an
  -- operation binding to that profile's digest and the record's policy version. It answers the next
  -- policy version and leaves the store as a successful write of the new record under the key's handle
  -- left it: the old record but with the profile behind the attested principals, no longer pending,
  -- and with the next policy version and audit number, both saturating. An OID that every attested
  -- principal of the old policy required is required by every one of the new policy.
  pub handle_promote-keeps_oids :
      (handle : String) (pending_id : ℕ) (approvals : List ApprovalToken) (ctx : RequestContext)
      (s : Store) (version : ℕ) (oid : String)
      → (handle_promote_pending platform sha256_hex kv handle pending_id approvals ctx s).0
        ≡ ok (pending_profile_promoted version)
      → (key : KeyRecord) × (p : PendingProfile) × (pre : List PendingProfile) × (post : List
          PendingProfile)
        × (written : Store) × (bytes : Bytes) × (load_record platform kv handle s ≡ ok key)
        × (key.pending_profiles ≡ pre ++ p ∷ post)
        × (p.id ≡ pending_id)
        × All (λ (x : PendingProfile). ¬ (x.id ≡ pending_id)) pre
        × (evaluate_op platform (record {
          policy = key.policy;
          op = promote_profile;
          handle = handle;
          approvals = approvals;
          ctx = ctx;
          op_binding = some (record {
            measurement_digest_hex = profile_binding_digest platform sha256_hex p.profile;
            policy_version = key.policy_version;
          });
        })
            ≡ ok tt)
        × (version ≡ min (key.policy_version + 1) (2 ^ 32 - 1))
        × (kv.record_to_vec (promoted_record key p pre post) ≡ some bytes)
        × ((kv.put written (record_key key.handle) bytes).0 ≡ ok tt)
        × ((kv.put written (record_key key.handle) bytes).1
            ≡ (handle_promote_pending platform sha256_hex kv handle pending_id approvals ctx s).1)
        × ((not (every_tee_requires key.policy oid)
              || every_tee_requires (promoted_record key p pre post).policy oid)
            ≡ true)
  unfolding handle_promote_pending
  handle_promote-keeps_oids handle pending_id approvals ctx s version oid e =
      let (key, loaded, e1, whole1) = after-done (load_record platform kv handle s, s) _ _ e in
      let found = find_id pending_id key.pending_profiles in
      let granted =
        permitted platform key promote_profile handle approvals ctx
          (binding_of platform sha256_hex kv key found) in
      let (u, allowed_, e2, whole2) =
        after-done (or_deny platform kv key promote_pending ctx granted s) _ _ e1 in
      let s2 = (or_deny platform kv key promote_pending ctx granted s).1 in
      let (p, found_eq, stores) = promote_found-Stores key pending_id ctx found s2 version e2 in
      let (version_eq, complete, saved) = stores in
      let final = (promote_found platform sha256_hex kv key pending_id ctx found s2).1 in
      let op_ok =
        as_policy-ok _ tt
          (or_deny-ok platform sha256_hex kv key promote_pending ctx granted s tt allowed_) in
      let (pre, post, split, named, others, removed) =
        find_id-split pending_id key.pending_profiles p found_eq in
      let removed_p = ap (λ i. remove_id i key.pending_profiles) named ∙ removed in
      let (written, bytes, coded, put_ok, put_final) =
        subst (λ k. IsSaved platform kv k final) (counted-promoted key p pre post removed_p)
          saved in
      (
        key,
        p,
        pre,
        post,
        written,
        bytes,
        loaded,
        split,
        named,
        others,
        rw found_eq at op_ok,
        version_eq,
        coded,
        put_ok,
        put_final ∙ ap (λ r. r.1) (sym (whole1 ∙ whole2)),
        implied (every_tee_requires key.policy oid) _
            (λ before. promoted_record-keeps key p pre post oid complete before),
      )
