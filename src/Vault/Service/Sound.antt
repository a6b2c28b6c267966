-- ===== src/Vault/Service/Sound.antt =====
-- Every request to the handlers of crates/enclave-os-vault/src/lib.rs keeps the stored records sound.
use privasys_enclave_os_mini.Common.{
  ℕ, ◌≤◌, ◌<◌, ◌≡◌, refl, inl, inr, Bool, false, not, Option, none, some, List, [], ◌∷◌, ◌++◌,
  arith, ◌==◌, leb, length, any, length-append, Bool-cases, Option-cases,
}
use privasys_enclave_os_mini.Common.Bytes.{Bytes}
use privasys_enclave_os_mini.Common.Results.{Result, ok, err, ok_or, refuse_if}
use privasys_enclave_os_mini.Vault.Types.{
  String, AttestationProfile, KeyPolicy, RequestContext, ApprovalToken, export_key, delete_key,
  update_policy, promote_profile,
}
use privasys_enclave_os_mini.Vault.Texts.{str_eq}
use privasys_enclave_os_mini.Vault.Platform.{Platform}
use privasys_enclave_os_mini.Vault.Update.{retain, evaluate_policy_update}
use privasys_enclave_os_mini.Vault.Records.{
  AuditOp, AuditCaller, AuditReason, PendingProfile, PendingProfileSource, KeyRecord, VaultError,
  allowed, no_reason, for_operation, stage_pending, promote_pending, revoke_pending, auto_migrate,
  key_expired, not_exportable, owner_not_oidc, too_many_pending, pending_not_found,
  missing_required_oid, serialise_error,
}
use privasys_enclave_os_mini.Vault.Keys.{
  VaultKv, Handle, after, pure, load_record, expired, caller_str, owner_oidc_sub, owner_index_key,
  record_key, audit_and_save, or_deny,
}
use privasys_enclave_os_mini.Vault.Records.{oidc_required, audit_log}
use privasys_enclave_os_mini.Vault.Audit.{read}
use privasys_enclave_os_mini.Vault.Handlers.{
  as_policy, permitted, normalise_policy, normalise_profile, require_caller,
  check_pending_mutability, check_stage_authority, is_tee_with, profile_eq, find_profile, find_id,
  remove_id, add_tee, auto_migrates,
}
use privasys_enclave_os_mini.Vault.Service.{
  KeyRequest, export_request, delete_request, update_request, get_policy_request, get_info_request,
  list_pending_request, stage_request, promote_request, revoke_request, push_pending,
  remove_from_owner_index, handle_export, handle_delete, handle_update_policy, handle_get_policy,
  handle_get_info, stage_new, handle_stage_pending, handle_list_pending, binding_of, promoted,
  promote_complete, promote_found, handle_promote_pending, handle_revoke_pending, serve,
  list_request, read_audit_request, handle_list, handle_read_audit, audit_limit, indexed,
}
use privasys_enclave_os_mini.Vault.Service.Bounded.{
  IsVaultKv, IsKey, IsVault, Keeps, after-Ensures, sound, load-Ensures, audit_and_save-Keeps,
  deny-Keeps, or_deny-Keeps, delete-IsVault, put_index-IsVault,
}

length-remove_id-le : (id : ℕ) (ps : List PendingProfile) → length (remove_id id ps) ≤ length ps
unfolding remove_id
length-remove_id-le id [] = omega arith
length-remove_id-le id (p ∷ ps) = ground (arith, length-remove_id-le id ps)

length-retain-le :
    (test : PendingProfile → Bool) (ps : List PendingProfile) → length (retain test ps) ≤ length ps
length-retain-le test [] = omega arith
length-retain-le test (p ∷ ps) = elim (Bool-cases (test p)) [
  | inl e ↦ rw e (omega (arith, length-retain-le test ps))
  | inr e ↦ rw e (omega (arith, length-retain-le test ps))
]

length-push_one-le :
    (ps : List PendingProfile) (p : PendingProfile)
    → leb 16 (length ps) ≡ false
    → length (ps ++ p ∷ []) ≤ 16
length-push_one-le ps p room =
    let less : length ps < 16 = ground arith in omega (arith, length-append ps (p ∷ []))

module _ {Store : Type 0} (platform : Platform) (sha256_hex : Bytes → String) (kv : VaultKv Store)
    (laws : IsVaultKv kv) where
  abbrev Sound : Store → Type 0
  Sound s = IsVault platform kv s

  abbrev Kept : {A : Type 0} → Result VaultError A × Store → Type 0
  Kept r = Keeps platform kv r

  -- A handler that starts by loading the record.
  with_key :
      {A : Type 0} (handle : String) (s : Store) (f : KeyRecord → Handle Store A)
      → Sound s
      → ((key : KeyRecord) (s' : Store) → Sound s' → IsKey key.handle key → Kept (f key s'))
      → Kept (after (load_record platform kv handle s, s) f)
  with_key handle s f hs k =
      after-Ensures platform kv (IsKey handle) _ (load_record platform kv handle s, s) f
        (load-Ensures platform kv handle s hs) λ key s1 h1 good. k key s1 h1 (refl, good.1)

  -- A step and what follows it, where only the store matters.
  followed :
      {A B : Type 0} (r : Result VaultError A × Store) (f : A → Handle Store B)
      → Kept r
      → ((a : A) (s : Store) → Sound s → Kept (f a s))
      → Kept (after r f)
  followed r f h k = after-Ensures platform kv _ _ r f h λ a s hs u. k a s hs

  -- The store after an entry for an allowed operation.
  audited :
      (key : KeyRecord) (op : AuditOp) (ctx : RequestContext) (s : Store)
      → Sound s
      → IsKey key.handle key
      → Sound (audit_and_save platform kv key op (caller_str ctx) allowed no_reason s).1
  audited key op ctx s hs good =
      (audit_and_save-Keeps platform kv laws key op (caller_str ctx) allowed no_reason s hs good).0

  export-Keeps :
      (handle : String) (approvals : List ApprovalToken) (ctx : RequestContext) (s : Store)
      → Sound s
      → Kept (handle_export platform sha256_hex kv handle approvals ctx s)
  unfolding handle_export
  export-Keeps handle approvals ctx s hs = with_key handle s _ hs λ key s1 h1 good.
      let granted =
        permitted platform key export_key handle approvals ctx
          (some (record { measurement_digest_hex = []; policy_version = key.policy_version })) in
      followed (refuse_if (expired platform key) key_expired, s1) _ (sound platform kv _ s1 h1)
        λ u2 s2 h2.
          followed (refuse_if (not key.exportable) not_exportable, s2) _ (sound platform kv _ s2 h2)
            λ u3 s3 h3.
              followed (or_deny platform kv key (for_operation export_key) ctx granted s3) _
                (or_deny-Keeps platform kv laws key (for_operation export_key) ctx granted s3 h3
                  good)
                λ u4 s4 h4.
                  sound platform kv _ _ (audited key (for_operation export_key) ctx s4 h4 good)

  remove_from_owner_index-Keeps :
      (sub handle : String) (s : Store)
      → Sound s
      → Kept (remove_from_owner_index platform sha256_hex kv sub handle s)
  unfolding remove_from_owner_index
  remove_from_owner_index-Keeps sub handle s hs = by_read (kv.get s (owner_index_key sub))
    where
      by_out :
          (o : Option Bytes)
          → Kept {A = Unit {0}} (elim o [
            | none ↦ (err serialise_error, s)
            | some out ↦ kv.put s (owner_index_key sub) out
          ])
      by_out none = sound platform kv (err serialise_error) s hs
      by_out (some out) = (put_index-IsVault platform kv laws s sub out hs, λ _ _. tt)

      by_read :
          (r : Result VaultError (Option Bytes))
          → Kept {A = Unit {0}} (elim r [
            | err e ↦ (ok tt, s)
            | ok none ↦ (ok tt, s)
            | ok (some bytes) ↦
                let handles : List String = elim (kv.handles_from_slice bytes) [
                  | none ↦ []
                  | some hs ↦ hs
                ] in
                elim (kv.handles_to_vec (retain (λ h. not (str_eq h handle)) handles)) [
                  | none ↦ (err serialise_error, s)
                  | some out ↦ kv.put s (owner_index_key sub) out
                ]
          ])
      by_read (err e) = sound platform kv (ok tt) s hs
      by_read (ok none) = sound platform kv (ok tt) s hs
      by_read (ok (some bytes)) = by_out _

  delete-Keeps :
      (handle : String) (approvals : List ApprovalToken) (ctx : RequestContext) (s : Store)
      → Sound s
      → Kept (handle_delete platform sha256_hex kv handle approvals ctx s)
  unfolding handle_delete
  delete-Keeps handle approvals ctx s hs = with_key handle s _ hs λ key s1 h1 good.
      let granted = permitted platform key delete_key handle approvals ctx none in
      let owner = ok_or (owner_oidc_sub key.policy.principals.owner) owner_not_oidc in
      followed (or_deny platform kv key (for_operation delete_key) ctx granted s1) _
        (or_deny-Keeps platform kv laws key (for_operation delete_key) ctx granted s1 h1 good)
        λ u2 s2 h2.
          followed (owner, s2) _ (sound platform kv owner s2 h2)
            λ owner_sub s3 h3.
              let s4 =
                (audit_and_save platform kv key (for_operation delete_key) (caller_str ctx) allowed
                  no_reason s3).1 in
              let h4 = audited key (for_operation delete_key) ctx s3 h3 good in
              followed (kv.delete s4 (record_key handle)) _
                (delete-IsVault platform kv laws s4 handle h4, λ _ _. tt)
                λ u5 s5 h5.
                  sound platform kv _ _ (remove_from_owner_index-Keeps owner_sub handle s5 h5).0

  -- A change that is saved and answered.
  saved :
      {A : Type 0} (key : KeyRecord) (op : AuditOp) (caller : AuditCaller) (why : AuditReason)
      (answer : A) (s : Store)
      → Sound s
      → IsKey key.handle key
      → Kept (after (audit_and_save platform kv key op caller allowed why s) λ _. pure answer)
  saved key op caller why answer s hs good =
      followed (audit_and_save platform kv key op caller allowed why s) _
        (audit_and_save-Keeps platform kv laws key op caller allowed why s hs good)
        λ u s1 h1. sound platform kv (ok answer) s1 h1

  update-Keeps :
      (handle : String) (given : KeyPolicy) (approvals : List ApprovalToken) (ctx : RequestContext)
      (s : Store)
      → Sound s
      → Kept (handle_update_policy platform sha256_hex kv handle given approvals ctx s)
  unfolding handle_update_policy
  update-Keeps handle given approvals ctx s hs = with_key handle s _ hs λ key s1 h1 good.
      let granted = permitted platform key update_policy handle approvals ctx none in
      let new_policy = normalise_policy platform given in
      followed (refuse_if (expired platform key) key_expired, s1) _ (sound platform kv _ s1 h1)
        λ u2 s2 h2.
          followed (or_deny platform kv key (for_operation update_policy) ctx granted s2) _
            (or_deny-Keeps platform kv laws key (for_operation update_policy) ctx granted s2 h2
              good)
            λ u3 s3 h3.
              followed (require_caller platform key ctx, s3) _ (sound platform kv _ s3 h3)
                λ role s4 h4.
                  let checked = as_policy (evaluate_policy_update key.policy new_policy role) in
                  followed (or_deny platform kv key (for_operation update_policy) ctx checked s4) _
                    (or_deny-Keeps platform kv laws key (for_operation update_policy) ctx checked s4
                      h4 good)
                    λ u5 s5 h5. saved _ (for_operation update_policy) _ _ _ s5 h5 good

  -- A handler that only reads.
  read-Keeps :
      {A B : Type 0} (handle : String) (s : Store) (check : KeyRecord → Result VaultError A)
      (f : KeyRecord → B)
      → Sound s
      → Kept (
          after
            (load_record platform kv handle s, s)
            λ key s1. after (check key, s1) λ a s2. pure (f key) s2)
  read-Keeps handle s check f hs = with_key handle s _ hs λ key s1 h1 good.
      followed (check key, s1) _ (sound platform kv (check key) s1 h1)
        λ a s2 h2. sound platform kv (ok (f key)) s2 h2

  stage_new-Keeps :
      (key : KeyRecord) (profile : AttestationProfile) (source : PendingProfileSource)
      (by_platform : Bool) (ctx : RequestContext) (s : Store)
      → Sound s
      → IsKey key.handle key
      → Kept (stage_new platform sha256_hex kv key profile source by_platform ctx s)
  unfolding stage_new add_tee push_pending
  stage_new-Keeps key profile source by_platform ctx s hs good =
      elim (Bool-cases (auto_migrates key profile by_platform)) [
        | inl auto ↦
            rw auto (saved (add_tee key profile) auto_migrate (caller_str ctx) _ _ s hs good)
        | inr manual ↦ elim (Bool-cases (leb 16 (length key.pending_profiles))) [
          | inl full ↦
              rw (manual, full) (deny-Keeps platform kv laws key _ ctx too_many_pending s hs good)
          | inr room ↦
              rw (manual, room)
                (saved (push_pending platform key profile source by_platform ctx) stage_pending
                  (caller_str ctx) _ _ s hs (refl, length-push_one-le key.pending_profiles _ room))
        ]
      ]

  stage-Keeps :
      (handle : String) (given : AttestationProfile) (source : PendingProfileSource)
      (ctx : RequestContext) (s : Store)
      → Sound s
      → Kept (handle_stage_pending platform sha256_hex kv handle given source ctx s)
  unfolding handle_stage_pending
  stage-Keeps handle given source ctx s hs = with_key handle s _ hs λ key s1 h1 good.
      let checked = check_stage_authority platform key ctx in
      let profile = normalise_profile platform given in
      followed (or_deny platform kv key stage_pending ctx checked s1) _
        (or_deny-Keeps platform kv laws key stage_pending ctx checked s1 h1 good)
        λ by_platform s2 h2.
          elim (Bool-cases
            (any (is_tee_with (λ t. profile_eq t profile)) key.policy.principals.tees)) [
              | inl active ↦ rw active (sound platform kv _ s2 h2)
              | inr new_tee ↦ elim (Option-cases (find_profile profile key.pending_profiles)) [
                | inr (id, pending) ↦ rw (new_tee, pending) (sound platform kv _ s2 h2)
                | inl new_pending ↦
                    rw (new_tee, new_pending)
                      (stage_new-Keeps key profile source by_platform ctx s2 h2 good)
              ]
            ]

  promote_complete-Keeps :
      (key : KeyRecord) (p : PendingProfile) (ctx : RequestContext) (missing : Option String)
      (s : Store)
      → Sound s
      → IsKey key.handle key
      → Kept (promote_complete platform sha256_hex kv key p ctx missing s)
  unfolding promote_complete promoted add_tee
  promote_complete-Keeps key p ctx (some oid) s hs good =
      deny-Keeps platform kv laws key promote_pending ctx (missing_required_oid oid) s hs good
  promote_complete-Keeps key p ctx none s hs good =
      saved (promoted platform sha256_hex kv key p) promote_pending (caller_str ctx) _ _ s hs
        (refl, omega (arith, good.1, length-remove_id-le p.id key.pending_profiles))

  promote_found-Keeps :
      (key : KeyRecord) (pending_id : ℕ) (ctx : RequestContext) (found : Option PendingProfile)
      (s : Store)
      → Sound s
      → IsKey key.handle key
      → Kept (promote_found platform sha256_hex kv key pending_id ctx found s)
  unfolding promote_found
  promote_found-Keeps key pending_id ctx none s hs good =
      deny-Keeps platform kv laws key promote_pending ctx (pending_not_found pending_id) s hs good
  promote_found-Keeps key pending_id ctx (some p) s hs good =
      promote_complete-Keeps key p ctx _ s hs good

  promote-Keeps :
      (handle : String) (pending_id : ℕ) (approvals : List ApprovalToken) (ctx : RequestContext)
      (s : Store)
      → Sound s
      → Kept (handle_promote_pending platform sha256_hex kv handle pending_id approvals ctx s)
  unfolding handle_promote_pending
  promote-Keeps handle pending_id approvals ctx s hs = with_key handle s _ hs λ key s1 h1 good.
      let found = find_id pending_id key.pending_profiles in
      let granted =
        permitted platform key promote_profile handle approvals ctx
          (binding_of platform sha256_hex kv key found) in
      followed (or_deny platform kv key promote_pending ctx granted s1) _
        (or_deny-Keeps platform kv laws key promote_pending ctx granted s1 h1 good)
        λ u2 s2 h2. promote_found-Keeps key pending_id ctx found s2 h2 good

  revoke-Keeps :
      (handle : String) (pending_id : ℕ) (ctx : RequestContext) (s : Store)
      → Sound s
      → Kept (handle_revoke_pending platform sha256_hex kv handle pending_id ctx s)
  unfolding handle_revoke_pending
  revoke-Keeps handle pending_id ctx s hs = with_key handle s _ hs λ key s1 h1 good.
      let checked = check_pending_mutability platform key ctx in
      let kept = retain (λ (p : PendingProfile). not (p.id == pending_id)) key.pending_profiles in
      let fewer =
        length-retain-le (λ (p : PendingProfile). not (p.id == pending_id)) key.pending_profiles in
      followed (or_deny platform kv key revoke_pending ctx checked s1) _
        (or_deny-Keeps platform kv laws key revoke_pending ctx checked s1 h1 good)
        λ role s2 h2. elim (Bool-cases (length kept == length key.pending_profiles)) [
          | inl unknown ↦ rw unknown (
              deny-Keeps platform kv laws key revoke_pending ctx (pending_not_found pending_id) s2
                h2 good)
          | inr found ↦ rw found (
              saved (record key { pending_profiles = kept }) revoke_pending (caller_str ctx) _ _ s2
                h2 (refl, omega (arith, good.1, fewer)))
        ]

  list-Keeps : (ctx : RequestContext) (s : Store) → Sound s → Kept (handle_list kv ctx s)
  unfolding handle_list
  list-Keeps ctx s hs =
      let asked = ok_or ctx.oidc_claims oidc_required in
      followed (asked, s) _ (sound platform kv asked s hs)
        λ claims s1 h1.
          let handles = indexed kv (kv.get s1 (owner_index_key claims.sub)) in
          followed (handles, s1) _ (sound platform kv handles s1 h1)
            λ hs2 s2 h2. sound platform kv _ s2 h2

  -- Given a store and a codec that read back what was written: if every stored record stands under
  -- its own handle with at most 16 pending profiles, so it is after any export, deletion, policy
  -- update, read, listing, staging, promotion or revocation, whatever the request, its caller and its outcome,
  -- and also after writes that failed.
  pub serve-IsVault :
      (request : KeyRequest) (ctx : RequestContext) (s : Store)
      → IsVault platform kv s
      → IsVault platform kv (serve platform sha256_hex kv request ctx s).1
  unfolding serve handle_get_policy handle_get_info handle_list_pending handle_read_audit
  serve-IsVault (export_request handle approvals) ctx s hs =
      (export-Keeps handle approvals ctx s hs).0
  serve-IsVault (delete_request handle approvals) ctx s hs =
      (delete-Keeps handle approvals ctx s hs).0
  serve-IsVault (update_request handle given approvals) ctx s hs =
      (update-Keeps handle given approvals ctx s hs).0
  serve-IsVault (get_policy_request handle) ctx s hs =
      (read-Keeps handle s (λ key. require_caller platform key ctx) _ hs).0
  serve-IsVault (get_info_request handle) ctx s hs =
      (read-Keeps handle s (λ key. require_caller platform key ctx) _ hs).0
  serve-IsVault (list_pending_request handle) ctx s hs =
      (read-Keeps handle s (λ key. require_caller platform key ctx) _ hs).0
  serve-IsVault (stage_request handle profile source) ctx s hs =
      (stage-Keeps handle profile source ctx s hs).0
  serve-IsVault (promote_request handle pending_id approvals) ctx s hs =
      (promote-Keeps handle pending_id approvals ctx s hs).0
  serve-IsVault (revoke_request handle pending_id) ctx s hs =
      (revoke-Keeps handle pending_id ctx s hs).0
  serve-IsVault list_request ctx s hs = (list-Keeps ctx s hs).0
  serve-IsVault (read_audit_request handle since_seq limit) ctx s hs =
      (with_key handle s _ hs λ key s1 h1 good.
        followed (require_caller platform key ctx, s1) _
          (sound platform kv (require_caller platform key ctx) s1 h1)
          λ role s2 h2.
            let page = read kv s2 handle key.audit_next_seq since_seq (audit_limit limit) in
            followed (page, s2) _ (sound platform kv page s2 h2)
              λ p s3 h3. sound platform kv (ok (audit_log p.0 p.1)) s3 h3).0
