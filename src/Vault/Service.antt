-- ===== src/Vault/Service.antt =====
-- The handlers of crates/enclave-os-vault/src/lib.rs over the store of key records.
pub mod Exported
pub mod Bounded
pub mod Sound
pub mod Promoted
mod Examples
use privasys_enclave_os_mini.Common.{
  min, ℕ, ◌-◌, Bool, true, false, not, Option, none, some, List, [], ◌∷◌, ◌++◌, ◌==◌, leb,
  if◌then◌else◌, length, any,
}
use privasys_enclave_os_mini.Common.Bytes.{Bytes}
use privasys_enclave_os_mini.Common.Results.{Result, ok, err, ok_or, refuse_if}
use privasys_enclave_os_mini.Vault.Types.{
  String, Operation, export_key, delete_key, update_policy, promote_profile, AttestationProfile,
  KeyPolicy, RequestContext, ApprovalToken, OpBinding,
}
use privasys_enclave_os_mini.Vault.Texts.{str_eq, holds}
use privasys_enclave_os_mini.Vault.Platform.{Platform}
use privasys_enclave_os_mini.Vault.Update.{evaluate_policy_update, key_required_oids, retain}
use privasys_enclave_os_mini.Vault.Records.{
  KeyType, KeyType-discrete, PendingProfile, PendingProfileSource, platform_build,
  max_pending_profiles, allowed, VaultError, serialise_error, key_expired, not_exportable,
  owner_not_oidc, wrong_key_type, too_many_pending, pending_not_found, missing_required_oid,
  no_reason, staged_id, auto_migrated, promoted_to, revoked_id, for_operation, stage_pending,
  promote_pending, revoke_pending, auto_migrate, KeyRecord, KeyListEntry, VaultResponse, key_list,
  audit_log, oidc_required, key_material, key_deleted, policy_updated, policy_of, key_info,
  pending_profile_staged, pending_profile_list, pending_profile_promoted, pending_profile_revoked,
}
use privasys_enclave_os_mini.Vault.Keys.{
  VaultKv, Handle, after, ◌>>=◌, ◌>>◌, pure, lift, ignore, saturating_add, now_secs, expired,
  owner_oidc_sub, caller_str, owner_index_key, record_key, load, audit_and_save, deny, or_deny,
}
use privasys_enclave_os_mini.Vault.Audit.{read}
use privasys_enclave_os_mini.Vault.Handlers.{
  as_policy, permitted, normalise_policy, normalise_profile, require_caller,
  check_pending_mutability, check_stage_authority, is_tee_with, profile_eq, find_profile, find_id,
  remove_id, missing_oid, add_tee, auto_migrates, profile_binding_digest,
}

-- The requests of `VaultRequest` whose handlers stand here.
pub data KeyRequest : Type 0 where
  export_request delete_request : String → List ApprovalToken → KeyRequest
  update_request : String → KeyPolicy → List ApprovalToken → KeyRequest
  get_policy_request get_info_request list_pending_request : String → KeyRequest
  stage_request : String → AttestationProfile → PendingProfileSource → KeyRequest
  promote_request : String → (pending_id : ℕ) → List ApprovalToken → KeyRequest
  revoke_request : String → (pending_id : ℕ) → KeyRequest
  list_request : KeyRequest
  read_audit_request : String → (since_seq limit : ℕ) → KeyRequest

-- `ctx.oidc_claims.sub`, or "tee"
abbrev pub stager_sub : RequestContext → String
stager_sub ctx = elim ctx.oidc_claims [ none ↦ b't' ∷ b'e' ∷ b'e' ∷ [] | some c ↦ c.sub ]

-- The record with the staged profile at the end of its pending ones.
unfoldable pub push_pending :
    Platform
    → KeyRecord
    → AttestationProfile
    → PendingProfileSource
    → (by_platform : Bool) → RequestContext
    → KeyRecord
push_pending platform key profile source by_platform ctx = record key {
  next_pending_id = saturating_add 32 key.next_pending_id 1;
  pending_profiles =
      key.pending_profiles
      ++ (record {
        id = key.next_pending_id;
        profile = profile;
        source = if by_platform then platform_build else source;
        staged_at = now_secs platform;
        staged_by_sub = stager_sub ctx;
        staged_by_platform = by_platform;
      })
        ∷ [];
}

abbrev pub add_some : {A : Type 0} → Option A → List A → List A
add_some none xs = xs
add_some (some x) xs = x ∷ xs

unfoldable pub audit_limit : ℕ → ℕ
audit_limit limit = if limit == 0 then 256 else min limit 1024

module _ {Store : Type 0} (kv : VaultKv Store) where
  -- The handles in an owner's index.
  unfoldable pub indexed : Result VaultError (Option Bytes) → Result VaultError (List String)
  indexed (err e) = err e
  indexed (ok none) = ok []
  indexed (ok (some bytes)) = ok (elim (kv.handles_from_slice bytes) [ none ↦ [] | some hs ↦ hs ])

  -- A handle whose record cannot be read is passed over.
  unfoldable pub key_entry : Result VaultError (Option Bytes) → Option KeyListEntry
  key_entry (err e) = none
  key_entry (ok none) = none
  key_entry (ok (some bytes)) = elim (kv.record_from_slice bytes) [
    | none ↦ none
    | some key ↦
        some (record { handle = key.handle; key_type = key.key_type; expires_at = key.expires_at })
  ]

  unfoldable pub list_entries : Store → List String → List KeyListEntry
  list_entries s [] = []
  list_entries s (h ∷ hs) = add_some (key_entry (kv.get s (record_key h))) (list_entries s hs)

  unfoldable pub handle_list : RequestContext → Handle Store VaultResponse
  handle_list ctx = do
    claims ← lift (ok_or ctx.oidc_claims oidc_required)
    handles ← (λ s. (indexed (kv.get s (owner_index_key claims.sub)), s))
    (λ s. (ok (key_list (list_entries s handles)), s))

module _ {Store : Type 0} (platform : Platform) (sha256_hex : Bytes → String)
    (kv : VaultKv Store) where
  unfoldable pub remove_from_owner_index : String → String → Handle Store (Unit {0})
  remove_from_owner_index owner_sub handle s = elim (kv.get s (owner_index_key owner_sub)) [
    | err e ↦ (ok tt, s)
    | ok none ↦ (ok tt, s)
    | ok (some bytes) ↦
        let handles : List String = elim (kv.handles_from_slice bytes) [
          | none ↦ []
          | some hs ↦ hs
        ] in
        elim (kv.handles_to_vec (retain (λ h. not (str_eq h handle)) handles)) [
          | none ↦ (err serialise_error, s)
          | some out ↦ kv.put s (owner_index_key owner_sub) out
        ]
  ]

  unfoldable pub handle_export :
      String → List ApprovalToken → RequestContext → Handle Store VaultResponse
  handle_export handle approvals ctx = do
    key ← load platform kv handle
    lift (refuse_if (expired platform key) key_expired)
    lift (refuse_if (not key.exportable) not_exportable)
    let op_binding : OpBinding = record {
      measurement_digest_hex = [];
      policy_version = key.policy_version;
    }
    or_deny platform kv key (for_operation export_key) ctx
        (permitted platform key export_key handle approvals ctx (some op_binding))
    ignore (
        audit_and_save platform kv key (for_operation export_key) (caller_str ctx) allowed
          no_reason)
    pure (key_material key.material key.expires_at)

  unfoldable pub handle_delete :
      String → List ApprovalToken → RequestContext → Handle Store VaultResponse
  handle_delete handle approvals ctx = do
    key ← load platform kv handle
    or_deny platform kv key (for_operation delete_key) ctx
        (permitted platform key delete_key handle approvals ctx none)
    owner_sub ← lift (ok_or (owner_oidc_sub key.policy.principals.owner) owner_not_oidc)
    ignore (
        audit_and_save platform kv key (for_operation delete_key) (caller_str ctx) allowed
          no_reason)
    (λ s. kv.delete s (record_key handle))
    ignore (remove_from_owner_index owner_sub handle)
    pure key_deleted

  unfoldable pub handle_update_policy :
      String → KeyPolicy → List ApprovalToken → RequestContext → Handle Store VaultResponse
  handle_update_policy handle given approvals ctx = do
    key ← load platform kv handle
    lift (refuse_if (expired platform key) key_expired)
    or_deny platform kv key (for_operation update_policy) ctx
        (permitted platform key update_policy handle approvals ctx none)
    role ← lift (require_caller platform key ctx)
    let new_policy = normalise_policy platform given
    or_deny platform kv key (for_operation update_policy) ctx
        (as_policy (evaluate_policy_update key.policy new_policy role))
    let updated : KeyRecord = record key {
      policy = new_policy;
      policy_version = saturating_add 32 key.policy_version 1;
    }
    audit_and_save platform kv updated (for_operation update_policy) (caller_str ctx) allowed
        no_reason
    pure (policy_updated updated.policy_version)

  unfoldable pub handle_get_policy : String → RequestContext → Handle Store VaultResponse
  handle_get_policy handle ctx = do
    key ← load platform kv handle
    _ ← lift (require_caller platform key ctx)
    pure (policy_of key.policy key.policy_version)

  unfoldable pub handle_get_info : String → RequestContext → Handle Store VaultResponse
  handle_get_info handle ctx = do
    key ← load platform kv handle
    _ ← lift (require_caller platform key ctx)
    pure (
        key_info (record {
          handle = key.handle;
          key_type = key.key_type;
          exportable = key.exportable;
          created_at = key.created_at;
          expires_at = key.expires_at;
          policy_version = key.policy_version;
          public_key = key.public_key;
        }))

  -- The handler behind the checks of who may stage and of what is there already.
  unfoldable pub stage_new :
      KeyRecord
      → AttestationProfile
      → PendingProfileSource
      → (by_platform : Bool) → RequestContext
      → Handle Store VaultResponse
  stage_new key profile source by_platform ctx =
      let migrated = add_tee key profile in
      if auto_migrates key profile by_platform
      then audit_and_save platform kv migrated auto_migrate (caller_str ctx) allowed
          (auto_migrated (length migrated.policy.principals.tees - 1))
        >> pure (pending_profile_staged 0 true migrated.policy_version)
      else if leb max_pending_profiles (length key.pending_profiles)
      then deny platform kv key stage_pending ctx too_many_pending
      else audit_and_save platform kv (push_pending platform key profile source by_platform ctx)
          stage_pending (caller_str ctx) allowed (staged_id key.next_pending_id)
        >> pure (pending_profile_staged key.next_pending_id false key.policy_version)

  unfoldable pub handle_stage_pending :
      String
      → AttestationProfile
      → PendingProfileSource
      → RequestContext
      → Handle Store VaultResponse
  handle_stage_pending handle given source ctx = do
    key ← load platform kv handle
    by_platform ← or_deny platform kv key stage_pending ctx (check_stage_authority platform key ctx)
    let profile = normalise_profile platform given
    elim (any (is_tee_with (λ t. profile_eq t profile)) key.policy.principals.tees) [
      | true ↦ pure (pending_profile_staged 0 true key.policy_version)
      | false ↦ elim (find_profile profile key.pending_profiles) [
        | some id ↦ pure (pending_profile_staged id false key.policy_version)
        | none ↦ stage_new key profile source by_platform ctx
      ]
    ]

  unfoldable pub handle_list_pending : String → RequestContext → Handle Store VaultResponse
  handle_list_pending handle ctx = do
    key ← load platform kv handle
    _ ← lift (require_caller platform key ctx)
    pure (pending_profile_list key.pending_profiles)

  -- What a promotion is bound to, if the profile is there.
  abbrev pub binding_of : KeyRecord → Option PendingProfile → Option OpBinding
  binding_of key none = none
  binding_of key (some p) = some (record {
    measurement_digest_hex = profile_binding_digest platform sha256_hex p.profile;
    policy_version = key.policy_version;
  })

  -- The record after the promotion of a pending profile.
  unfoldable pub promoted : KeyRecord → PendingProfile → KeyRecord
  promoted key p = record (add_tee key p.profile) {
    pending_profiles = remove_id p.id key.pending_profiles;
  }

  -- The promotion, unless the profile lacks an established OID.
  unfoldable pub promote_complete :
      KeyRecord → PendingProfile → RequestContext → Option String → Handle Store VaultResponse
  promote_complete key p ctx (some oid) =
      deny platform kv key promote_pending ctx (missing_required_oid oid)
  promote_complete key p ctx none =
      let next = promoted key p in
      audit_and_save platform kv next promote_pending (caller_str ctx) allowed
        (promoted_to p.id (length next.policy.principals.tees - 1))
      >> pure (pending_profile_promoted next.policy_version)

  unfoldable pub promote_found :
      KeyRecord
      → (pending_id : ℕ) → RequestContext
      → Option PendingProfile
      → Handle Store VaultResponse
  unfolding promote_complete
  promote_found key pending_id ctx none =
      deny platform kv key promote_pending ctx (pending_not_found pending_id)
  promote_found key pending_id ctx (some p) =
      promote_complete key p ctx
        (missing_oid p.profile.required_oids (key_required_oids key.policy))

  unfoldable pub handle_promote_pending :
      String → (pending_id : ℕ) → List ApprovalToken → RequestContext → Handle Store VaultResponse
  handle_promote_pending handle pending_id approvals ctx = do
    key ← load platform kv handle
    let found = find_id pending_id key.pending_profiles
    or_deny platform kv key promote_pending ctx
        (permitted platform key promote_profile handle approvals ctx (binding_of key found))
    promote_found key pending_id ctx found

  unfoldable pub handle_revoke_pending :
      String → (pending_id : ℕ) → RequestContext → Handle Store VaultResponse
  handle_revoke_pending handle pending_id ctx = do
    key ← load platform kv handle
    _ ← or_deny platform kv key revoke_pending ctx (check_pending_mutability platform key ctx)
    let kept = retain (λ (p : PendingProfile). not (p.id == pending_id)) key.pending_profiles
    elim (length kept == length key.pending_profiles) [
      | true ↦ deny platform kv key revoke_pending ctx (pending_not_found pending_id)
      | false ↦
          audit_and_save platform kv (record key { pending_profiles = kept }) revoke_pending
            (caller_str ctx) allowed (revoked_id pending_id)
          >> pure pending_profile_revoked
    ]

  -- The prelude of the operations with a key: the record, if the operation is allowed.
  unfoldable pub require_op :
      String → Operation → KeyType → List ApprovalToken → RequestContext → Handle Store KeyRecord
  require_op handle op expect_type approvals ctx = do
    key ← load platform kv handle
    or_deny platform kv key (for_operation op) ctx (refuse_if (expired platform key) key_expired)
    or_deny platform kv key (for_operation op) ctx (
        refuse_if (not (holds (KeyType-discrete key.key_type expect_type)))
          (wrong_key_type key.key_type op expect_type))
    or_deny platform kv key (for_operation op) ctx
        (permitted platform key op handle approvals ctx none)
    audit_and_save platform kv key (for_operation op) (caller_str ctx) allowed no_reason
    pure key

  unfoldable pub handle_read_audit :
      String → (since_seq limit : ℕ) → RequestContext → Handle Store VaultResponse
  handle_read_audit handle since_seq limit ctx = do
    key ← load platform kv handle
    _ ← lift (require_caller platform key ctx)
    page ← (λ s. (read kv s handle key.audit_next_seq since_seq (audit_limit limit), s))
    pure (audit_log page.0 page.1)

  -- The arms of `VaultModule::handle` for these requests.
  unfoldable pub serve : KeyRequest → RequestContext → Handle Store VaultResponse
  serve (export_request handle approvals) ctx = handle_export handle approvals ctx
  serve (delete_request handle approvals) ctx = handle_delete handle approvals ctx
  serve (update_request handle new_policy approvals) ctx =
      handle_update_policy handle new_policy approvals ctx
  serve (get_policy_request handle) ctx = handle_get_policy handle ctx
  serve (get_info_request handle) ctx = handle_get_info handle ctx
  serve (stage_request handle profile source) ctx = handle_stage_pending handle profile source ctx
  serve (list_pending_request handle) ctx = handle_list_pending handle ctx
  serve (promote_request handle pending_id approvals) ctx =
      handle_promote_pending handle pending_id approvals ctx
  serve (revoke_request handle pending_id) ctx = handle_revoke_pending handle pending_id ctx
  serve list_request ctx = handle_list kv ctx
  serve (read_audit_request handle since_seq limit) ctx =
      handle_read_audit handle since_seq limit ctx
