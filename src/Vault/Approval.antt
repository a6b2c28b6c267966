-- ===== src/Vault/Approval.antt =====
-- `verify_approval_token` of crates/enclave-os-vault/src/signing.rs, and the refusals of the policy,
-- one constructor for each message.
use privasys_enclave_os_mini.Common.{ℕ, ◌-◌, not, ◌&&◌, Option, none, some, ◌∷◌, [], ltb, ◌==◌}
use privasys_enclave_os_mini.Common.Results.{Result, ok, ◌>>=◌, ◌>>◌, refuse_if, ok_or}
use privasys_enclave_os_mini.Vault.Types.{
  String, Operation, Operation-discrete, PolicyField, ApprovalToken, ApprovalClaims,
}
use privasys_enclave_os_mini.Vault.Texts.{holds, str_eq, is_empty}
use privasys_enclave_os_mini.Vault.Platform.{Platform}

pub data PolicyError : Type 0 where
  not_in_policy : PolicyError
  no_rule_grants : Operation → PolicyError
  conditions_not_met : Operation → PolicyError → PolicyError
  before_window after_window no_peer_cert profile_mismatch : PolicyError
  manager_out_of_range manager_not_oidc no_proposer no_token_supplied : PolicyError
  no_token_accepted : PolicyError → PolicyError
  no_bearer amr_not_satisfied no_iat token_age no_binding no_vault_op no_nonce vault_op_mismatch :
      PolicyError
  token_not_verified issuer_mismatch handle_mismatch op_mismatch manager_mismatch : PolicyError
  no_approver_sub second_approver_required expired stale : PolicyError
  role_not_allowed owner_only : PolicyError
  field_immutable field_not_allowed : PolicyField → PolicyError
  oid_dropped : String → PolicyError

-- "enclave-os-vault"
abbrev pub issuer_name : String
issuer_name =
    101 ∷ 110 ∷ 99 ∷ 108 ∷ 97 ∷ 118 ∷ 101 ∷ 45 ∷ 111 ∷ 115 ∷ 45 ∷ 118 ∷ 97 ∷ 117 ∷ 108 ∷ 116 ∷ []

-- The co-sign check: a second approver, where the proposer is named.
abbrev pub check_distinct : Option String → ApprovalClaims → Result PolicyError (Unit {0})
check_distinct none claims = ok tt
check_distinct (some proposer_sub) claims = do
  refuse_if (is_empty claims.approver_sub) no_approver_sub
  refuse_if (str_eq claims.approver_sub proposer_sub) second_approver_required

-- The checks on the decoded claims.
unfoldable pub check_claims :
    ApprovalClaims
    → (handle : String) → Operation
    → (manager : ℕ) → Option String
    → (fresh_for_seconds now : ℕ) → Result PolicyError (Unit {0})
check_claims claims handle op manager distinct_from fresh_for_seconds now = do
  refuse_if (not (str_eq claims.iss issuer_name)) issuer_mismatch
  refuse_if (not (str_eq claims.handle handle)) handle_mismatch
  refuse_if (not (holds (Operation-discrete claims.op op))) op_mismatch
  refuse_if (not (claims.manager == manager)) manager_mismatch
  check_distinct distinct_from claims
  refuse_if (ltb claims.exp now) expired
  refuse_if (ltb 0 fresh_for_seconds && ltb fresh_for_seconds (now - claims.iat)) stale

unfoldable pub verify_approval_token :
    Platform
    → ApprovalToken
    → (handle : String) → Operation
    → (manager : ℕ) → Option String
    → (fresh_for_seconds now : ℕ) → Result PolicyError (Unit {0})
verify_approval_token platform token handle op manager distinct_from fresh_for_seconds now = do
  claims ← ok_or (platform.verify_and_decode token.jwt) token_not_verified
  check_claims claims handle op manager distinct_from fresh_for_seconds now
