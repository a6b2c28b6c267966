-- ===== src/Vault/Access.antt =====
-- `evaluate_op` of crates/enclave-os-vault/src/policy.rs.
pub mod Granted
use privasys_enclave_os_mini.Common.{
  ℕ, Bool, true, false, not, ◌||◌, Option, none, some, List, [], ◌∷◌, ◌==◌, if◌then◌else◌, any,
}
use privasys_enclave_os_mini.Common.Results.{Result, ok, err, ◌>>=◌, ok_or}
use privasys_enclave_os_mini.Vault.Types.{
  Operation, Operation-discrete, OperationRule, PrincipalRef, owner_ref, manager_ref, auditor_ref,
  tee_ref, any_tee_ref,
}
use privasys_enclave_os_mini.Vault.Texts.{contains}
use privasys_enclave_os_mini.Vault.Platform.{Platform}
use privasys_enclave_os_mini.Vault.Caller.{resolve_caller}
use privasys_enclave_os_mini.Vault.Approval.{
  PolicyError, not_in_policy, no_rule_grants, conditions_not_met,
}
use privasys_enclave_os_mini.Vault.Conditions.{Attempt, evaluate_conditions}

unfoldable pub ref_grants : (granted caller : PrincipalRef) → Bool
ref_grants owner_ref owner_ref = true
ref_grants (manager_ref a) (manager_ref b) = a == b
ref_grants (auditor_ref a) (auditor_ref b) = a == b
ref_grants (tee_ref a) (tee_ref b) = a == b
ref_grants any_tee_ref (tee_ref _) = true
ref_grants _ _ = false

unfoldable pub rule_grants_to : OperationRule → PrincipalRef → Bool
rule_grants_to rule caller = any (λ p. ref_grants p caller) rule.principals

abbrev pub no_rule : Operation → Option PolicyError → PolicyError
no_rule op none = no_rule_grants op
no_rule op (some e) = conditions_not_met op e

-- The loop over the rules, with the error of the last rule whose conditions were not met.
unfoldable pub first_granting :
    Platform
    → Attempt
    → PrincipalRef
    → Option PolicyError
    → List OperationRule
    → Result PolicyError (Unit {0})
first_granting platform attempt caller last_err [] = err (no_rule attempt.op last_err)
first_granting platform attempt caller last_err (rule ∷ rules) =
    let skipped = first_granting platform attempt caller last_err rules in
    if not (contains Operation-discrete attempt.op rule.ops) || not (rule_grants_to rule caller)
    then skipped
    else elim (evaluate_conditions platform attempt rule.requires) [
      | ok _ ↦ ok tt
      | err e ↦ first_granting platform attempt caller (some e) rules
    ]

unfoldable pub evaluate_op : Platform → Attempt → Result PolicyError (Unit {0})
evaluate_op platform attempt = do
  (caller_ref, role) ← ok_or (resolve_caller platform attempt.policy attempt.ctx) not_in_policy
  first_granting platform attempt caller_ref none attempt.policy.operations
