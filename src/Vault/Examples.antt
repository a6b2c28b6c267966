-- ===== src/Vault/Examples.antt =====
-- The theorems on crates/enclave-os-vault at a concrete policy, request and platform.
use privasys_enclave_os_mini.Common.{
  ℕ, ◌⊎◌, ◌≡◌, refl, ◌↔◌, true, false, none, some, [], ◌∷◌, get_elem?,
}
use privasys_enclave_os_mini.Common.Results.{ok}
use privasys_enclave_os_mini.Vault.Types.{
  String, String-discrete, sign, Operation-discrete, oidc, tee, PrincipalRef, owner_ref,
  AttestationProfile, manager_approval, OperationRule, ApprovalToken, ApprovalClaims,
  PolicyField-discrete, owner_field, managers_field, auditors_field, tees_field, operations_field,
  mutability_field, lifecycle_field, KeyPolicy, CallerRole, owner_role, OidcClaims,
  Principal-discrete, OperationRule-discrete, Lifecycle-discrete, Mutability-discrete,
  CallerRole-discrete, AttestationProfile-discrete, OidRequirement-discrete, PrincipalRef-discrete,
  Condition-discrete,
}
use native.Mathlib.Decide.{ℕ_discrete}
use privasys_enclave_os_mini.Vault.Texts.{contains, str_eq}
use privasys_enclave_os_mini.Vault.Platform.{Platform}
use privasys_enclave_os_mini.Vault.Caller.{resolve_caller}
use privasys_enclave_os_mini.Vault.Approval.{issuer_name, check_claims, verify_approval_token}
use privasys_enclave_os_mini.Vault.Conditions.{Attempt, check}
use privasys_enclave_os_mini.Vault.Conditions.CoSign.{Approves, manager_approval-second}
use privasys_enclave_os_mini.Vault.Access.{evaluate_op}
use privasys_enclave_os_mini.Vault.Access.Granted.{Grants, evaluate_op_iff}
use privasys_enclave_os_mini.Vault.Update.{
  diff_policy_fields, key_required_oids, check_fields, check_oids_kept, evaluate_policy_update,
}
use privasys_enclave_os_mini.Vault.Update.Kept.{every_tee_requires}
use privasys_enclave_os_mini.Vault.Update.Accepted.{
  MayChange, update-keeps_oids, update-auto_migrate, update-fields,
}

abbrev app_id : String
app_id = 51 ∷ 46 ∷ 54 ∷ []

abbrev profile : AttestationProfile
profile = record {
  name = [];
  measurements = [];
  attestation_servers = [];
  required_oids = record { oid = app_id; value = 1 ∷ [] } ∷ [];
  acceptable_tcb_statuses = [];
}

abbrev alice : String
alice = 65 ∷ []

abbrev bob : String
bob = 66 ∷ []

abbrev approver : String
approver = 97 ∷ 112 ∷ []

abbrev policy : KeyPolicy
policy = record {
  version = 1;
  principals = record {
    owner = oidc [] alice [];
    managers = oidc [] [] (approver ∷ []) ∷ [];
    auditors = [];
    tees = tee profile ∷ [];
  };
  operations =
      record { ops = sign ∷ []; principals = owner_ref ∷ []; requires = manager_approval 0 0 ∷ [] }
      ∷ [];
  mutability = record {
    owner_can = managers_field ∷ lifecycle_field ∷ [];
    manager_can = [];
    immutable = owner_field ∷ [];
  };
  lifecycle = record { ttl_seconds = 60; auto_migrate_to_next_attestation_profile = false };
}

abbrev migrating : KeyPolicy
migrating = record policy {
  lifecycle = record { ttl_seconds = 90; auto_migrate_to_next_attestation_profile = true };
}

abbrev claims_of_bob : ApprovalClaims
claims_of_bob = record {
  iss = issuer_name;
  handle = 1 ∷ [];
  op = sign;
  manager = 0;
  approver_sub = bob;
  iat = 5;
  exp = 50;
}

-- A platform whose verifier takes every token for the one that bob issued, at time 20.
abbrev platform : Platform
platform = record {
  dissect_peer_cert = λ der quote. none;
  verify_quote_statuses = λ quote urls. none;
  parse_quote = λ quote. none;
  to_lowercase = λ s. s;
  verify_and_decode = λ jwt. some claims_of_bob;
  vault_op_binding = λ handle digest version nonce exp. [];
  get_current_time = some 20;
}

abbrev request : Attempt
request = record {
  policy = policy;
  op = sign;
  handle = 1 ∷ [];
  approvals = record { jwt = [] } ∷ [];
  ctx = record {
    oidc_claims = some (record {
      sub = alice;
      roles = [];
      amr = [];
      iat = 1;
      exp = 100;
      is_manager = false;
      vault_op = none;
      nonce = none;
    });
    peer_cert_der = none;
    peer_evidence = none;
  };
  op_binding = none;
}

evaluate_op_iff_example : (evaluate_op platform request ≡ ok tt) ↔ (
    (caller : PrincipalRef) × (role : CallerRole) × (i : ℕ) × (rule : OperationRule)
    × (resolve_caller platform policy request.ctx ≡ some (caller, role))
    × Grants platform request caller policy.operations i rule)
evaluate_op_iff_example = evaluate_op_iff platform request

approved : check platform request 20 (manager_approval 0 0) ≡ ok tt
unfolding check check_claims verify_approval_token str_eq String-discrete Operation-discrete
    ℕ_discrete
approved = refl

manager_approval-second_example :
    (proposer : OidcClaims) × (i : ℕ) × (token : ApprovalToken) × (claims : ApprovalClaims)
    × (request.ctx.oidc_claims ≡ some proposer)
    × (get_elem? request.approvals i ≡ some token)
    × (platform.verify_and_decode token.jwt ≡ some claims)
    × Approves claims (1 ∷ []) sign 0 (some proposer.sub) 0 20
manager_approval-second_example =
    manager_approval-second platform request 20 0 0 [] (approver ∷ []) refl approved

accepted : evaluate_policy_update policy migrating owner_role ≡ ok tt
unfolding evaluate_policy_update diff_policy_fields key_required_oids check_fields check_oids_kept
    str_eq String-discrete Principal-discrete OperationRule-discrete Lifecycle-discrete
    Mutability-discrete PolicyField-discrete CallerRole-discrete ℕ_discrete
    AttestationProfile-discrete OidRequirement-discrete Operation-discrete PrincipalRef-discrete
    Condition-discrete
accepted = refl

required : every_tee_requires policy app_id ≡ true
unfolding str_eq String-discrete ℕ_discrete
required = refl

update-keeps_oids_example : every_tee_requires migrating app_id ≡ true
update-keeps_oids_example = update-keeps_oids policy migrating owner_role app_id accepted required

false≢true : false ≡ true → ⊥
false≢true e = cc e

update-auto_migrate_example : owner_role ≡ owner_role
update-auto_migrate_example = update-auto_migrate policy migrating owner_role accepted false≢true

update-fields_example :
    ((policy.principals.owner ≡ migrating.principals.owner)
      ⊎ MayChange owner_role policy.mutability owner_field)
    × ((policy.principals.managers ≡ migrating.principals.managers)
        ⊎ MayChange owner_role policy.mutability managers_field)
    × ((policy.principals.auditors ≡ migrating.principals.auditors)
        ⊎ MayChange owner_role policy.mutability auditors_field)
    × ((policy.principals.tees ≡ migrating.principals.tees)
        ⊎ MayChange owner_role policy.mutability tees_field)
    × ((policy.operations ≡ migrating.operations)
        ⊎ MayChange owner_role policy.mutability operations_field)
    × ((policy.lifecycle ≡ migrating.lifecycle)
        ⊎ MayChange owner_role policy.mutability lifecycle_field)
    × ((policy.mutability ≡ migrating.mutability)
        ⊎ MayChange owner_role policy.mutability mutability_field)
update-fields_example = update-fields policy migrating owner_role accepted

immutable_owner : contains PolicyField-discrete owner_field (owner_field ∷ []) ≡ true
unfolding PolicyField-discrete
immutable_owner = refl
