-- ===== src/Vault/Handlers.antt =====
-- The handlers of crates/enclave-os-vault/src/lib.rs for a key and its pending profiles. An answer
-- `VaultResponse::Error` is the error case of the result.
use privasys_enclave_os_mini.Common.{
  ℕ, ◌*◌, Bool, true, false, not, ◌&&◌, Option, none, some, List, [], ◌∷◌, ◌++◌, ◌==◌, ltb,
  if◌then◌else◌, any, all, map,
}
use privasys_enclave_os_mini.Common.Bytes.{Bytes}
use privasys_enclave_os_mini.Common.Results.{Result, ok, err, refuse_if}
use privasys_enclave_os_mini.Vault.Types.{
  String, Operation, Measurement, mrenclave, tdx, AttestationServer, OidRequirement,
  AttestationProfile, AttestationProfile-discrete, Principal, oidc, fido2, tee, Mutability,
  PolicyField, pending_profiles_field, PolicyField-discrete, KeyPolicy, CallerRole, owner_role,
  manager_role, auditor_role, tee_role, RequestContext, ApprovalToken, OpBinding,
}
use privasys_enclave_os_mini.Vault.Texts.{holds, contains, to_ascii_lowercase}
use privasys_enclave_os_mini.Vault.Platform.{Platform}
use privasys_enclave_os_mini.Vault.Caller.{resolve_caller}
use privasys_enclave_os_mini.Vault.Approval.{PolicyError}
use privasys_enclave_os_mini.Vault.Access.{evaluate_op}
use privasys_enclave_os_mini.Vault.Update.{key_required_oids, requires_oid, runtime_only_delta}
use privasys_enclave_os_mini.Vault.Records.{
  PendingProfile, VaultError, policy_error, caller_not_in_policy, role_cannot_stage,
  role_not_allowed_pending, pending_immutable, KeyRecord,
}
use privasys_enclave_os_mini.Vault.Keys.{saturating_add}

abbrev pub default_key_ttl_seconds : ℕ
default_key_ttl_seconds = 30 * 24 * 60 * 60

abbrev pub max_key_ttl_seconds : ℕ
max_key_ttl_seconds = 90 * 24 * 60 * 60

-- A policy's answer as the handlers pass it on.
abbrev pub as_policy : {A : Type 0} → Result PolicyError A → Result VaultError A
as_policy (ok a) = ok a
as_policy (err e) = err (policy_error e)

module _ (platform : Platform) where
  unfoldable pub normalise_measurement : Measurement → Measurement
  normalise_measurement (mrenclave s) = mrenclave (platform.to_lowercase s)
  normalise_measurement (tdx mrtd rtmr1 rtmr2) =
      tdx (platform.to_lowercase mrtd) (platform.to_lowercase rtmr1) (platform.to_lowercase rtmr2)

  unfoldable pub normalise_pin : Option String → Option String
  normalise_pin none = none
  normalise_pin (some h) = some (map to_ascii_lowercase h)

  unfoldable pub normalise_profile : AttestationProfile → AttestationProfile
  normalise_profile profile = record profile {
    measurements = map normalise_measurement profile.measurements;
    required_oids =
        map (λ (r : OidRequirement). record r { value = platform.to_lowercase r.value })
          profile.required_oids;
    attestation_servers =
        map
          (λ (s : AttestationServer). record s {
            pinned_spki_sha256_hex = normalise_pin s.pinned_spki_sha256_hex;
          })
          profile.attestation_servers;
  }

  unfoldable pub normalise_principal : Principal → Principal
  normalise_principal (tee profile) = tee (normalise_profile profile)
  normalise_principal (oidc issuer sub required_roles) = oidc issuer sub required_roles
  normalise_principal (fido2 rp_id credential_id_b64) = fido2 rp_id credential_id_b64

  unfoldable pub normalise_ttl : ℕ → ℕ
  normalise_ttl ttl =
      let given = if ttl == 0 then default_key_ttl_seconds else ttl in
      if ltb max_key_ttl_seconds given then max_key_ttl_seconds else given

  unfoldable pub normalise_policy : KeyPolicy → KeyPolicy
  normalise_policy policy =
      let lifecycle = policy.lifecycle in
      let principals = policy.principals in
      record policy {
        lifecycle = record lifecycle { ttl_seconds = normalise_ttl lifecycle.ttl_seconds };
        principals = record {
          owner = normalise_principal principals.owner;
          managers = map normalise_principal principals.managers;
          auditors = map normalise_principal principals.auditors;
          tees = map normalise_principal principals.tees;
        };
      }

  -- The call of `evaluate_op` that each handler makes.
  abbrev pub permitted :
      KeyRecord
      → Operation
      → String
      → List ApprovalToken
      → RequestContext
      → Option OpBinding
      → Result VaultError (Unit {0})
  permitted key op handle approvals ctx op_binding = as_policy (
      evaluate_op platform (record {
        policy = key.policy;
        op = op;
        handle = handle;
        approvals = approvals;
        ctx = ctx;
        op_binding = op_binding;
      }))

  -- The role of the caller, who must be in the policy.
  unfoldable pub require_caller : KeyRecord → RequestContext → Result VaultError CallerRole
  require_caller key ctx = elim (resolve_caller platform key.policy ctx) [
    | none ↦ err caller_not_in_policy
    | some (ref, role) ↦ ok role
  ]

  unfoldable pub pending_fields : Mutability → CallerRole → Result VaultError (List PolicyField)
  pending_fields m owner_role = ok m.owner_can
  pending_fields m manager_role = ok m.manager_can
  pending_fields m auditor_role = err (role_cannot_stage auditor_role)
  pending_fields m tee_role = err (role_cannot_stage tee_role)

  abbrev pub and_then :
      {A B : Type 0} → Result VaultError A → (A → Result VaultError B) → Result VaultError B
  and_then (ok a) f = f a
  and_then (err e) f = err e

  unfoldable pub check_pending_mutability :
      KeyRecord → RequestContext → Result VaultError CallerRole
  check_pending_mutability key ctx =
      let m = key.policy.mutability in
      and_then (require_caller key ctx) λ role. and_then (pending_fields m role) λ fields.
        and_then
          (refuse_if (contains PolicyField-discrete pending_profiles_field m.immutable)
            pending_immutable)
          λ _.
            and_then
              (refuse_if (not (contains PolicyField-discrete pending_profiles_field fields))
                (role_not_allowed_pending role))
              λ _. ok role

  abbrev pub is_platform : RequestContext → Bool
  is_platform ctx = elim ctx.oidc_claims [ none ↦ false | some c ↦ c.is_manager ]

  -- Whether the stager is the platform (`StagerIdentity`).
  unfoldable pub check_stage_authority : KeyRecord → RequestContext → Result VaultError Bool
  check_stage_authority key ctx = elim (resolve_caller platform key.policy ctx) [
    | some _ ↦ and_then (check_pending_mutability key ctx) λ _. ok false
    | none ↦ and_then (refuse_if (not (is_platform ctx)) caller_not_in_policy) λ _.
        and_then
          (refuse_if
            (contains PolicyField-discrete pending_profiles_field key.policy.mutability.immutable)
            pending_immutable)
          λ _. ok true
  ]

-- Pure parts of the handlers for pending profiles.
abbrev pub is_tee_with : (AttestationProfile → Bool) → Principal → Bool
is_tee_with test (tee profile) = test profile
is_tee_with test (oidc _ _ _) = false
is_tee_with test (fido2 _ _) = false

abbrev pub profile_eq : AttestationProfile → AttestationProfile → Bool
profile_eq a b = holds (AttestationProfile-discrete a b)

unfoldable pub find_profile : AttestationProfile → List PendingProfile → Option ℕ
find_profile profile [] = none
find_profile profile (p ∷ ps) =
    if profile_eq p.profile profile then some p.id else find_profile profile ps

unfoldable pub find_id : ℕ → List PendingProfile → Option PendingProfile
find_id pending_id [] = none
find_id pending_id (p ∷ ps) = if p.id == pending_id then some p else find_id pending_id ps

-- `remove(position)` of the first entry with the id
unfoldable pub remove_id : ℕ → List PendingProfile → List PendingProfile
remove_id pending_id [] = []
remove_id pending_id (p ∷ ps) = if p.id == pending_id then ps else p ∷ remove_id pending_id ps

-- The first established OID that the profile does not require.
unfoldable pub missing_oid : List OidRequirement → List String → Option String
missing_oid required [] = none
missing_oid required (oid ∷ oids) =
    if requires_oid required oid then missing_oid required oids else some oid

-- The profile joins the policy's TEEs, under the next policy version.
unfoldable pub add_tee : KeyRecord → AttestationProfile → KeyRecord
add_tee key profile =
    let policy = key.policy in
    let principals = policy.principals in
    record key {
      policy = record policy {
        principals = record principals { tees = principals.tees ++ tee profile ∷ [] };
      };
      policy_version = saturating_add 32 key.policy_version 1;
    }

unfoldable pub auto_migrates : KeyRecord → AttestationProfile → (staged_by_platform : Bool) → Bool
auto_migrates key profile staged_by_platform =
    staged_by_platform
    && (key.policy.lifecycle.auto_migrate_to_next_attestation_profile
        && (any (is_tee_with (runtime_only_delta profile)) key.policy.principals.tees
            && all (requires_oid profile.required_oids) (key_required_oids key.policy)))

-- `parts.sort()`: insertion into a sorted list, by the bytes
unfoldable pub text_le : String → String → Bool
text_le [] b = true
text_le (x ∷ a) [] = false
text_le (x ∷ a) (y ∷ b) = let rest = text_le a b in if x == y then rest else ltb x y

unfoldable pub insert_text : String → List String → List String
insert_text t [] = t ∷ []
insert_text t (u ∷ us) = if text_le t u then t ∷ (u ∷ us) else u ∷ insert_text t us

unfoldable pub sort_texts : List String → List String
sort_texts [] = []
sort_texts (t ∷ ts) = insert_text t (sort_texts ts)

-- `parts.join("\n")`
unfoldable pub join_lines : List String → String
join_lines [] = []
join_lines (t ∷ []) = t
join_lines (t ∷ (u ∷ us)) = t ++ 10 ∷ join_lines (u ∷ us)

unfoldable pub measurement_parts : Platform → List Measurement → List String
measurement_parts platform [] = []
measurement_parts platform (mrenclave v ∷ ms) =
    (b'm' ∷ b'r' ∷ b'e' ∷ b'n' ∷ b'c' ∷ b'l' ∷ b'a' ∷ b'v' ∷ b'e' ∷ b':' ∷ platform.to_lowercase v)
    ∷ measurement_parts platform ms
measurement_parts platform (tdx mrtd rtmr1 rtmr2 ∷ ms) =
    (b'm' ∷ b'r' ∷ b't' ∷ b'd' ∷ b':' ∷ platform.to_lowercase mrtd)
    ∷ ((b'r' ∷ b't' ∷ b'm' ∷ b'r' ∷ b'1' ∷ b':' ∷ platform.to_lowercase rtmr1)
        ∷ ((b'r' ∷ b't' ∷ b'm' ∷ b'r' ∷ b'2' ∷ b':' ∷ platform.to_lowercase rtmr2)
            ∷ measurement_parts platform ms))

unfoldable pub oid_part : Platform → OidRequirement → String
oid_part platform r = b'o' ∷ b'i' ∷ b'd' ∷ b':' ∷ (r.oid ++ b'=' ∷ platform.to_lowercase r.value)

-- `sha256_hex` is the hexadecimal SHA-256 digest of the `ring` crate.
unfoldable pub profile_binding_digest :
    Platform → (sha256_hex : Bytes → String) → AttestationProfile → String
profile_binding_digest platform sha256_hex profile = sha256_hex (
    join_lines (
      sort_texts (
        measurement_parts platform profile.measurements
        ++ map (oid_part platform) profile.required_oids)))
