-- ===== src/Vault/Records.antt =====
-- The persisted record of a key, with its pending profiles and audit entries, of
-- crates/enclave-os-vault/src/types.rs, and what a request to the vault ends in.
use privasys_enclave_os_mini.Common.{ℕ, Bool, Option, List}
use privasys_enclave_os_mini.Common.Bytes.{Bytes}
use privasys_enclave_os_mini.Vault.Types.{
  String, AttestationProfile, KeyPolicy, CallerRole, Operation,
}
use privasys_enclave_os_mini.Vault.Approval.{PolicyError}

pub data KeyType : Type 0 where
  raw_share aes256_gcm_key p256_signing_key hmac_sha256_key : KeyType

pub data PendingProfileSource : Type 0 where
  platform_build manual_import : PendingProfileSource

pub record PendingProfile : Type 0 where
  pub id : ℕ
  pub profile : AttestationProfile
  pub source : PendingProfileSource
  pub staged_at : ℕ
  pub staged_by_sub : String
  pub staged_by_platform : Bool

abbrev pub max_pending_profiles : ℕ
max_pending_profiles = 16

pub data AuditDecision : Type 0 where
  allowed denied : AuditDecision

-- The errors of the handlers, a constructor for each message.
pub data VaultError : Type 0 where
  policy_error : PolicyError → VaultError
  kv_error key_not_found corrupt_record serialise_error : VaultError
  oidc_required key_expired not_exportable caller_not_in_policy owner_not_oidc : VaultError
  wrong_key_type : KeyType → Operation → KeyType → VaultError
  role_cannot_stage role_not_allowed_pending : CallerRole → VaultError
  pending_immutable too_many_pending : VaultError
  pending_not_found : ℕ → VaultError
  missing_required_oid : String → VaultError

-- The texts that the handlers write into the audit log.
pub data AuditReason : Type 0 where
  no_reason : AuditReason
  refused_for : VaultError → AuditReason
  staged_id : ℕ → AuditReason
  auto_migrated : (tee : ℕ) → AuditReason
  promoted_to : (id tee : ℕ) → AuditReason
  revoked_id : ℕ → AuditReason

-- The names under which they write.
pub data AuditOp : Type 0 where
  for_operation : Operation → AuditOp
  stage_pending promote_pending revoke_pending auto_migrate : AuditOp

pub data AuditCaller : Type 0 where
  oidc_caller : String → AuditCaller
  tee_caller anonymous : AuditCaller

pub record AuditEntry : Type 0 where
  pub seq : ℕ
  pub ts : ℕ
  pub op : AuditOp
  pub caller : AuditCaller
  pub decision : AuditDecision
  pub reason : AuditReason

pub record KeyRecord : Type 0 where
  pub handle : String
  pub key_type : KeyType
  pub exportable : Bool
  pub material : Bytes
  pub public_key : Option Bytes
  pub policy : KeyPolicy
  pub policy_version : ℕ
  pub created_at : ℕ
  pub expires_at : ℕ
  pub pending_profiles : List PendingProfile
  pub audit_next_seq : ℕ
  pub next_pending_id : ℕ

pub record KeyInfo : Type 0 where
  pub handle : String
  pub key_type : KeyType
  pub exportable : Bool
  pub created_at : ℕ
  pub expires_at : ℕ
  pub policy_version : ℕ
  pub public_key : Option Bytes

pub record KeyListEntry : Type 0 where
  pub handle : String
  pub key_type : KeyType
  pub expires_at : ℕ

-- The answers of the handlers other than errors.
pub data VaultResponse : Type 0 where
  key_material : Bytes → (expires_at : ℕ) → VaultResponse
  key_deleted : VaultResponse
  policy_updated : (policy_version : ℕ) → VaultResponse
  policy_of : KeyPolicy → (policy_version : ℕ) → VaultResponse
  key_info : KeyInfo → VaultResponse
  pending_profile_staged :
      (pending_id : ℕ) → (auto_promoted : Bool) → (policy_version : ℕ) → VaultResponse
  pending_profile_list : List PendingProfile → VaultResponse
  pending_profile_promoted : (policy_version : ℕ) → VaultResponse
  pending_profile_revoked : VaultResponse
  key_list : List KeyListEntry → VaultResponse
  audit_log : List AuditEntry → (next_seq : ℕ) → VaultResponse

unfoldable pub KeyType-discrete : Discrete KeyType
KeyType-discrete = hlevel
