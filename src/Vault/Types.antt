-- ===== src/Vault/Types.antt =====
-- The policy schema of crates/enclave-os-vault/src/types.rs, with what the policy reads of a request
-- (`RequestContext`, `PeerEvidence`, `OidcClaims` of common/src) and of a quote. A text is its bytes.
use privasys_enclave_os_mini.Common.{ℕ, Bool, Option, List}
use privasys_enclave_os_mini.Common.Bytes.{Bytes}
use native.Mathlib.Decide.{ℕ_discrete}

abbrev pub String : Type 0
String = List ℕ

pub data Operation : Type 0 where
  export_key delete_key update_policy wrap unwrap sign mac promote_profile : Operation

pub data Measurement : Type 0 where
  mrenclave : String → Measurement
  tdx : (mrtd rtmr1 rtmr2 : String) → Measurement

pub record AttestationServer : Type 0 where
  pub url : String
  pub pinned_spki_sha256_hex : Option String

pub record OidRequirement : Type 0 where
  pub oid : String
  pub value : String

pub record AttestationProfile : Type 0 where
  pub name : String
  pub measurements : List Measurement
  pub attestation_servers : List AttestationServer
  pub required_oids : List OidRequirement
  pub acceptable_tcb_statuses : List String

pub data Principal : Type 0 where
  oidc : (issuer sub : String) → (required_roles : List String) → Principal
  fido2 : (rp_id credential_id_b64 : String) → Principal
  tee : AttestationProfile → Principal

pub data PrincipalRef : Type 0 where
  owner_ref any_tee_ref : PrincipalRef
  manager_ref auditor_ref tee_ref : ℕ → PrincipalRef

pub record PrincipalSet : Type 0 where
  pub owner : Principal
  pub managers : List Principal
  pub auditors : List Principal
  pub tees : List Principal

pub data Condition : Type 0 where
  attestation_matches : AttestationProfile → Condition
  manager_approval : (manager fresh_for_seconds : ℕ) → Condition
  time_window : (not_before not_after : ℕ) → Condition
  oidc_step_up :
      (required_amr : List String) → (operation_bound : Bool) → (fresh_for_seconds : ℕ) → Condition

pub record OperationRule : Type 0 where
  pub ops : List Operation
  pub principals : List PrincipalRef
  pub requires : List Condition

pub record ApprovalToken : Type 0 where
  pub jwt : String

pub record ApprovalClaims : Type 0 where
  pub iss : String
  pub handle : String
  pub op : Operation
  pub manager : ℕ
  pub approver_sub : String
  pub iat : ℕ
  pub exp : ℕ

pub record Lifecycle : Type 0 where
  pub ttl_seconds : ℕ
  pub auto_migrate_to_next_attestation_profile : Bool

pub data PolicyField : Type 0 where
  owner_field managers_field auditors_field tees_field operations_field : PolicyField
  lifecycle_field mutability_field pending_profiles_field : PolicyField

pub record Mutability : Type 0 where
  pub owner_can : List PolicyField
  pub manager_can : List PolicyField
  pub immutable : List PolicyField

pub record KeyPolicy : Type 0 where
  pub version : ℕ
  pub principals : PrincipalSet
  pub operations : List OperationRule
  pub mutability : Mutability
  pub lifecycle : Lifecycle

pub data CallerRole : Type 0 where
  owner_role manager_role auditor_role tee_role : CallerRole

-- What the policy reads of a bearer token.
pub record OidcClaims : Type 0 where
  pub sub : String
  pub roles : List String
  pub amr : List String
  pub iat : ℕ
  pub exp : ℕ
  pub is_manager : Bool
  pub vault_op : Option String
  pub nonce : Option String

-- What the policy reads of a request; of the evidence that the peer presented it reads the quote.
pub record RequestContext : Type 0 where
  pub oidc_claims : Option OidcClaims
  pub peer_cert_der : Option Bytes
  pub peer_evidence : Option Bytes

pub data TeeType : Type 0 where
  sgx_tee tdx_tee : TeeType

pub record QuoteIdentity : Type 0 where
  pub tee_type : TeeType
  pub measurement : String
  pub rtmr1 : Option String
  pub rtmr2 : Option String

pub record OpBinding : Type 0 where
  pub measurement_digest_hex : String
  pub policy_version : ℕ

-- The derived equalities.
unfoldable pub String-discrete : Discrete String
String-discrete = hlevel ℕ_discrete

unfoldable pub Operation-discrete : Discrete Operation
Operation-discrete = hlevel

unfoldable pub Measurement-discrete : Discrete Measurement
Measurement-discrete = hlevel ℕ_discrete

unfoldable pub AttestationServer-discrete : Discrete AttestationServer
AttestationServer-discrete = hlevel ℕ_discrete

unfoldable pub OidRequirement-discrete : Discrete OidRequirement
OidRequirement-discrete = hlevel ℕ_discrete

unfoldable pub AttestationProfile-discrete : Discrete AttestationProfile
AttestationProfile-discrete =
    hlevel (ℕ_discrete, Measurement-discrete, AttestationServer-discrete, OidRequirement-discrete)

unfoldable pub Principal-discrete : Discrete Principal
Principal-discrete = hlevel (ℕ_discrete, AttestationProfile-discrete)

unfoldable pub PrincipalRef-discrete : Discrete PrincipalRef
PrincipalRef-discrete = hlevel ℕ_discrete

unfoldable pub Condition-discrete : Discrete Condition
Condition-discrete = hlevel (ℕ_discrete, AttestationProfile-discrete)

unfoldable pub OperationRule-discrete : Discrete OperationRule
OperationRule-discrete = hlevel (Operation-discrete, PrincipalRef-discrete, Condition-discrete)

unfoldable pub Lifecycle-discrete : Discrete Lifecycle
Lifecycle-discrete = hlevel ℕ_discrete

unfoldable pub PolicyField-discrete : Discrete PolicyField
PolicyField-discrete = hlevel

unfoldable pub Mutability-discrete : Discrete Mutability
Mutability-discrete = hlevel PolicyField-discrete

unfoldable pub CallerRole-discrete : Discrete CallerRole
CallerRole-discrete = hlevel
