-- ===== src/Vault/Update.antt =====
-- `evaluate_policy_update` and `runtime_only_delta` of crates/enclave-os-vault/src/policy.rs.
pub mod Kept
pub mod Accepted
pub mod Delta
mod Examples
use privasys_enclave_os_mini.Common.{
  ℕ, Bool, true, false, not, ◌&&◌, ◌++◌, Option, none, some, List, [], ◌∷◌, map, if◌then◌else◌, any,
  all,
}
use privasys_enclave_os_mini.Common.Results.{Result, ok, err, ◌>>=◌, ◌>>◌, refuse_if}
use privasys_enclave_os_mini.Vault.Types.{
  String, Measurement, mrenclave, tdx, Measurement-discrete, AttestationServer-discrete,
  OidRequirement, OidRequirement-discrete, String-discrete, AttestationProfile, Principal, oidc,
  fido2, tee, Principal-discrete, OperationRule-discrete, Lifecycle-discrete, Mutability-discrete,
  Mutability, PolicyField, owner_field, managers_field, auditors_field, tees_field,
  operations_field, lifecycle_field, mutability_field, PolicyField-discrete, KeyPolicy, CallerRole,
  owner_role, manager_role, auditor_role, tee_role, CallerRole-discrete,
}
use privasys_enclave_os_mini.Vault.Texts.{holds, contains, str_eq, is_empty, same_elements}
use privasys_enclave_os_mini.Vault.Approval.{
  PolicyError, role_not_allowed, field_immutable, field_not_allowed, oid_dropped, owner_only,
}

abbrev pub list_eq {ℓ} : {A : Type ℓ} → Discrete A → List A → List A → Bool
list_eq eq [] [] = true
list_eq eq [] (y ∷ ys) = false
list_eq eq (x ∷ xs) [] = false
list_eq eq (x ∷ xs) (y ∷ ys) = holds (eq x y) && list_eq eq xs ys

abbrev pub bool_eq : Bool → Bool → Bool
bool_eq true b = b
bool_eq false b = not b

abbrev pub changed : Bool → PolicyField → List PolicyField
changed true field = []
changed false field = field ∷ []

unfoldable pub diff_policy_fields : KeyPolicy → KeyPolicy → List PolicyField
diff_policy_fields old new =
    changed (holds (Principal-discrete old.principals.owner new.principals.owner)) owner_field
    ++ (changed (list_eq Principal-discrete old.principals.managers new.principals.managers)
          managers_field
        ++ (changed (list_eq Principal-discrete old.principals.auditors new.principals.auditors)
              auditors_field
            ++ (changed (list_eq Principal-discrete old.principals.tees new.principals.tees)
                  tees_field
                ++ (changed (list_eq OperationRule-discrete old.operations new.operations)
                      operations_field
                    ++ (changed (holds (Lifecycle-discrete old.lifecycle new.lifecycle))
                          lifecycle_field
                        ++ changed (holds (Mutability-discrete old.mutability new.mutability))
                            mutability_field)))))

-- The required OIDs of the attested profiles among the principals.
abbrev pub tee_oids : List Principal → List (List OidRequirement)
tee_oids [] = []
tee_oids (tee profile ∷ ps) = profile.required_oids ∷ tee_oids ps
tee_oids (oidc _ _ _ ∷ ps) = tee_oids ps
tee_oids (fido2 _ _ ∷ ps) = tee_oids ps

-- `retain`
abbrev pub retain {ℓ} : {A : Type ℓ} → (A → Bool) → List A → List A
retain p [] = []
retain p (x ∷ xs) = let kept = retain p xs in if p x then x ∷ kept else kept

abbrev pub requires_oid : List OidRequirement → String → Bool
requires_oid reqs oid = any (λ r. str_eq r.oid oid) reqs

abbrev pub retain_all : List (List OidRequirement) → List String → List String
retain_all [] acc = acc
retain_all (reqs ∷ rest) acc = retain_all rest (retain (requires_oid reqs) acc)

abbrev pub common_oids : List (List OidRequirement) → List String
common_oids [] = []
common_oids (first ∷ rest) = retain_all rest (map (λ r. r.oid) first)

unfoldable pub key_required_oids : KeyPolicy → List String
key_required_oids policy = common_oids (tee_oids policy.principals.tees)

-- The fields that a role may change.
abbrev pub allowed_fields : CallerRole → Mutability → Result PolicyError (List PolicyField)
allowed_fields owner_role m = ok m.owner_can
allowed_fields manager_role m = ok m.manager_can
allowed_fields auditor_role m = err role_not_allowed
allowed_fields tee_role m = err role_not_allowed

unfoldable pub check_fields :
    (immutable allowed : List PolicyField) → List PolicyField → Result PolicyError (Unit {0})
check_fields immutable allowed [] = ok tt
check_fields immutable allowed (field ∷ fields) = do
  refuse_if (contains PolicyField-discrete field immutable) (field_immutable field)
  refuse_if (not (contains PolicyField-discrete field allowed)) (field_not_allowed field)
  check_fields immutable allowed fields

unfoldable pub check_oids_kept :
    (new_required : List String) → List String → Result PolicyError (Unit {0})
check_oids_kept new_required [] = ok tt
check_oids_kept new_required (oid ∷ oids) = do
  refuse_if (not (any (λ o. str_eq o oid) new_required)) (oid_dropped oid)
  check_oids_kept new_required oids

unfoldable pub evaluate_policy_update :
    (old new : KeyPolicy) → CallerRole → Result PolicyError (Unit {0})
evaluate_policy_update old new role =
    let fields = diff_policy_fields old new in
    if is_empty fields then ok tt else (do
      allowed ← allowed_fields role old.mutability
      check_fields old.mutability.immutable allowed fields
      check_oids_kept (key_required_oids new) (key_required_oids old)
      refuse_if
          (not (
              bool_eq old.lifecycle.auto_migrate_to_next_attestation_profile
                new.lifecycle.auto_migrate_to_next_attestation_profile)
            && not (holds (CallerRole-discrete role owner_role)))
          owner_only)

abbrev pub is_mrenclave : Measurement → Bool
is_mrenclave (mrenclave _) = true
is_mrenclave (tdx _ _ _) = false

-- `some true`: all SGX; `some false`: all TDX; `none`: empty or mixed.
abbrev pub family : List Measurement → Option Bool
family [] = none
family (m ∷ ms) =
    if all (λ x. bool_eq (is_mrenclave x) (is_mrenclave m)) ms then some (is_mrenclave m) else none

abbrev pub same_family : Option Bool → Option Bool → Bool
same_family (some a) (some b) = bool_eq a b
same_family _ _ = false

unfoldable pub runtime_only_delta : (staged active : AttestationProfile) → Bool
runtime_only_delta staged active =
    if not (same_elements OidRequirement-discrete staged.required_oids active.required_oids)
    then false
    else if not (
        same_elements AttestationServer-discrete staged.attestation_servers
          active.attestation_servers)
    then false
    else if not (
        same_elements String-discrete staged.acceptable_tcb_statuses active.acceptable_tcb_statuses)
    then false
    else if not (same_family (family staged.measurements) (family active.measurements))
    then false
    else not (list_eq Measurement-discrete staged.measurements active.measurements)
