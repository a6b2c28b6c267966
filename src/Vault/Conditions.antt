-- ===== src/Vault/Conditions.antt =====
-- `evaluate_conditions` of crates/enclave-os-vault/src/policy.rs.
pub mod CoSign
use privasys_enclave_os_mini.Common.{
  ℕ, ◌-◌, Bool, true, false, not, ◌&&◌, Option, none, some, List, [], ◌∷◌, ltb, ◌==◌, if◌then◌else◌,
  any, all, get_elem?,
}
use privasys_enclave_os_mini.Common.Results.{Result, ok, err, ◌>>=◌, ◌>>◌, refuse_if, ok_or}
use privasys_enclave_os_mini.Vault.Types.{
  String, Operation, Condition, attestation_matches, manager_approval, time_window, oidc_step_up,
  Principal, oidc, fido2, tee, KeyPolicy, OidcClaims, RequestContext, ApprovalToken, OpBinding,
}
use privasys_enclave_os_mini.Vault.Texts.{str_eq, eq_ignore_ascii_case, is_empty}
use privasys_enclave_os_mini.Vault.Platform.{Platform}
use privasys_enclave_os_mini.Vault.Caller.{tee_matches}
use privasys_enclave_os_mini.Vault.Approval.{
  PolicyError, verify_approval_token, before_window, after_window, no_peer_cert, profile_mismatch,
  manager_out_of_range, manager_not_oidc, no_proposer, no_token_supplied, no_token_accepted,
  no_bearer, amr_not_satisfied, no_iat, token_age, no_binding, no_vault_op, no_nonce,
  vault_op_mismatch,
}

-- What stays the same over the conditions of a rule.
pub record Attempt : Type 0 where
  pub policy : KeyPolicy
  pub op : Operation
  pub handle : String
  pub approvals : List ApprovalToken
  pub ctx : RequestContext
  pub op_binding : Option OpBinding

-- `OidcClaims::has_amr` of common/src/oidc.rs
unfoldable pub has_amr : OidcClaims → List String → Bool
has_amr claims required = all (λ r. any (λ m. eq_ignore_ascii_case m r) claims.amr) required

abbrev pub manager_sub : Principal → Result PolicyError String
manager_sub (oidc issuer sub required_roles) = ok sub
manager_sub (fido2 rp_id credential_id_b64) = err manager_not_oidc
manager_sub (tee profile) = err manager_not_oidc

-- Who must not have approved: the proposer, where the manager is named by role only.
abbrev pub distinct_from :
    (mgr_sub : String) → Option OidcClaims → Result PolicyError (Option String)
distinct_from [] none = err no_proposer
distinct_from [] (some claims) = ok (some claims.sub)
distinct_from (c ∷ cs) oidc_claims = ok none

abbrev pub none_accepted : Option PolicyError → PolicyError
none_accepted none = no_token_supplied
none_accepted (some e) = no_token_accepted e

-- The loop over the tokens, with the error of the last one.
abbrev pub first_accepted :
    (ApprovalToken → Result PolicyError (Unit {0}))
    → Option PolicyError
    → List ApprovalToken
    → Result PolicyError (Unit {0})
first_accepted verify last [] = err (none_accepted last)
first_accepted verify last (token ∷ tokens) = elim (verify token) [
  | ok _ ↦ ok tt
  | err e ↦ first_accepted verify (some e) tokens
]

module _ (platform : Platform) (attempt : Attempt) (now : ℕ) where
  abbrev pub check_window : (not_before not_after : ℕ) → Result PolicyError (Unit {0})
  check_window not_before not_after = do
    refuse_if (not (not_before == 0) && ltb now not_before) before_window
    refuse_if (not (not_after == 0) && ltb not_after now) after_window

  abbrev pub check_approval : (manager fresh_for_seconds : ℕ) → Result PolicyError (Unit {0})
  check_approval manager fresh_for_seconds = do
    mgr ← ok_or (get_elem? attempt.policy.principals.managers manager) manager_out_of_range
    mgr_sub ← manager_sub mgr
    distinct ← distinct_from mgr_sub attempt.ctx.oidc_claims
    first_accepted
        (λ token.
          verify_approval_token platform token attempt.handle attempt.op manager distinct
            fresh_for_seconds now)
        none attempt.approvals

  abbrev pub check_fresh : OidcClaims → ℕ → Result PolicyError (Unit {0})
  check_fresh claims fresh_for_seconds =
      if ltb 0 fresh_for_seconds
      then (do
        refuse_if (claims.iat == 0) no_iat
        refuse_if (ltb fresh_for_seconds (now - claims.iat)) token_age)
      else ok tt

  abbrev pub check_binding : OidcClaims → Bool → Result PolicyError (Unit {0})
  check_binding claims false = ok tt
  check_binding claims true = do
    binding ← ok_or attempt.op_binding no_binding
    vault_op ← ok_or claims.vault_op no_vault_op
    nonce ← ok_or claims.nonce no_nonce
    refuse_if
        (not (
          str_eq vault_op (
            platform.vault_op_binding attempt.handle binding.measurement_digest_hex
              binding.policy_version nonce claims.exp)))
        vault_op_mismatch

  -- One condition, as the loop of `evaluate_conditions` treats it.
  unfoldable pub check : Condition → Result PolicyError (Unit {0})
  check (time_window not_before not_after) = check_window not_before not_after
  check (attestation_matches profile) = do
    peer ← ok_or attempt.ctx.peer_cert_der no_peer_cert
    refuse_if (not (tee_matches platform profile peer attempt.ctx.peer_evidence)) profile_mismatch
  check (manager_approval manager fresh_for_seconds) = check_approval manager fresh_for_seconds
  check (oidc_step_up required_amr operation_bound fresh_for_seconds) = do
    claims ← ok_or attempt.ctx.oidc_claims no_bearer
    refuse_if (not (has_amr claims required_amr)) amr_not_satisfied
    check_fresh claims fresh_for_seconds
    check_binding claims operation_bound

  abbrev pub check_all : List Condition → Result PolicyError (Unit {0})
  check_all [] = ok tt
  check_all (cond ∷ conds) = check cond >> check_all conds

-- `get_current_time().unwrap_or(0)`
abbrev pub time_or_zero : Option ℕ → ℕ
time_or_zero none = 0
time_or_zero (some now) = now

unfoldable pub evaluate_conditions :
    Platform → Attempt → List Condition → Result PolicyError (Unit {0})
evaluate_conditions platform attempt conditions =
    check_all platform attempt (time_or_zero platform.get_current_time) conditions
