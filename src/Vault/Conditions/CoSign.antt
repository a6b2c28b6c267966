-- ===== src/Vault/Conditions/CoSign.antt =====
-- What a met `ManagerApproval` condition proves (crates/enclave-os-vault/src/policy.rs and
-- crates/enclave-os-vault/src/signing.rs).
use privasys_enclave_os_mini.Common.{
  ℕ, suc, ◌-◌, ◌≤◌, false, ◌&&◌, Option, none, some, List, [], ◌∷◌, ◌≡◌, refl, ◌⊎◌, inl, inr, arith,
  get_elem?, ltb, ltb-false→le, ==_iff, Option-cases,
}
use privasys_enclave_os_mini.Common.Results.{Result-cases, Result, ok, err, ◌>>◌}
use privasys_enclave_os_mini.Vault.Types.{
  String, Operation, Operation-discrete, oidc, manager_approval, OidcClaims, ApprovalToken,
  ApprovalClaims,
}
use privasys_enclave_os_mini.Vault.Texts.{is_empty}
use privasys_enclave_os_mini.Vault.Texts.Equality.{
  not-false, holds-true, str_eq-true, str_eq-false, refuse_if_iff, refuse_if-last,
}
use privasys_enclave_os_mini.Vault.Platform.{Platform}
use privasys_enclave_os_mini.Vault.Approval.{
  PolicyError, issuer_name, check_distinct, check_claims, verify_approval_token,
}
use privasys_enclave_os_mini.Vault.Conditions.{Attempt, check, first_accepted}

-- The approver is named and is not the proposer, where one is to be excluded.
abbrev pub Second : Option String → ApprovalClaims → Type 0
Second none claims = Unit
Second (some proposer) claims = ¬ (claims.approver_sub ≡ []) × ¬ (claims.approver_sub ≡ proposer)

-- The claims are the vault's, for this handle, operation and manager, from a second approver, not
-- expired and fresh.
abbrev pub Approves :
    ApprovalClaims → String → Operation → ℕ → Option String → (fresh now : ℕ) → Type 0
Approves claims handle op manager distinct fresh now =
    (claims.iss ≡ issuer_name)
    × (claims.handle ≡ handle)
    × (claims.op ≡ op)
    × (claims.manager ≡ manager)
    × Second distinct claims
    × (now ≤ claims.exp)
    × ((fresh ≡ 0) ⊎ (now - claims.iat ≤ fresh))

is_empty-false : (s : String) → is_empty s ≡ false → ¬ (s ≡ [])
is_empty-false [] h e = cc h
is_empty-false (c ∷ s) h e = cc e

then-ok : (r s : Result PolicyError (Unit {0})) → (r >> s) ≡ ok tt → (r ≡ ok tt) × (s ≡ ok tt)
then-ok (ok tt) s h = (refl, h)
then-ok (err e) s h = absurd (cc h)

check_distinct-Second :
    (distinct : Option String) (claims : ApprovalClaims)
    → check_distinct distinct claims ≡ ok tt
    → Second distinct claims
check_distinct-Second none claims h = tt
check_distinct-Second (some proposer) claims h =
    let (named, other) = (refuse_if_iff _ _ _).0 h in
    (
      is_empty-false claims.approver_sub named,
      str_eq-false claims.approver_sub proposer ((refuse_if-last _ _).0 other),
    )

check_claims-Approves :
    (claims : ApprovalClaims) (handle : String) (op : Operation) (manager : ℕ)
    (distinct : Option String) (fresh now : ℕ)
    → check_claims claims handle op manager distinct fresh now ≡ ok tt
    → Approves claims handle op manager distinct fresh now
unfolding check_claims
check_claims-Approves claims handle op manager distinct fresh now h0 =
    let (iss, h1) = (refuse_if_iff _ _ _).0 h0 in
    let (same_handle, h2) = (refuse_if_iff _ _ _).0 h1 in
    let (same_op, h3) = (refuse_if_iff _ _ _).0 h2 in
    let (same_manager, h4) = (refuse_if_iff _ _ _).0 h3 in
    let (second, h5) = then-ok (check_distinct distinct claims) _ h4 in
    let (current, h6) = (refuse_if_iff _ _ _).0 h5 in
    (
      str_eq-true claims.iss issuer_name (not-false _ iss),
      str_eq-true claims.handle handle (not-false _ same_handle),
      holds-true (Operation-discrete claims.op op) (not-false _ same_op),
      (==_iff claims.manager manager).0 (not-false _ same_manager),
      check_distinct-Second distinct claims second,
      ltb-false→le claims.exp now current,
      fresh_enough fresh (now - claims.iat) ((refuse_if-last _ _).0 h6),
    )
  where
    fresh_enough :
        (fresh age : ℕ) → (ltb 0 fresh && ltb fresh age) ≡ false → (fresh ≡ 0) ⊎ (age ≤ fresh)
    fresh_enough fresh age h = ground arith

first_accepted-token :
    (verify : ApprovalToken → Result PolicyError (Unit {0})) (last : Option PolicyError)
    (tokens : List ApprovalToken)
    → first_accepted verify last tokens ≡ ok tt
    → (i : ℕ) × (token : ApprovalToken) × (get_elem? tokens i ≡ some token) × (verify token ≡ ok tt)
first_accepted-token verify last [] h = absurd (cc h)
first_accepted-token verify last (token ∷ tokens) h = elim (Result-cases (verify token)) [
  | inl e ↦ (0, token, refl, e)
  | inr (e, q) ↦
      let (i, t, at, v) =
        first_accepted-token verify (some e) tokens (rw (q, first_accepted) at h) in
      (suc i, t, at, v)
]

decoded :
    (platform : Platform) (token : ApprovalToken) (handle : String) (op : Operation) (manager : ℕ)
    (distinct : Option String) (fresh now : ℕ)
    → verify_approval_token platform token handle op manager distinct fresh now ≡ ok tt
    → (claims : ApprovalClaims) × (platform.verify_and_decode token.jwt ≡ some claims)
      × Approves claims handle op manager distinct fresh now
unfolding verify_approval_token
decoded platform token handle op manager distinct fresh now h =
    elim (Option-cases (platform.verify_and_decode token.jwt)) [
      | inl e ↦ absurd (cc (rw e at h))
      | inr (claims, e) ↦
          (claims, e, check_claims-Approves claims handle op manager distinct fresh now (rw e at h))
    ]

-- Where the condition names a manager by role only and is met, the request has a proposer, and one
-- of the supplied tokens decodes to claims that carry the vault's name, this handle, operation and
-- manager, are neither expired nor stale, and name an approver other than the proposer.
pub manager_approval-second :
    (platform : Platform) (attempt : Attempt) (now manager fresh : ℕ) (issuer : String)
    (roles : List String)
    → get_elem? attempt.policy.principals.managers manager ≡ some (oidc issuer [] roles)
    → check platform attempt now (manager_approval manager fresh) ≡ ok tt
    → (proposer : OidcClaims) × (i : ℕ) × (token : ApprovalToken) × (claims : ApprovalClaims)
      × (attempt.ctx.oidc_claims ≡ some proposer)
      × (get_elem? attempt.approvals i ≡ some token)
      × (platform.verify_and_decode token.jwt ≡ some claims)
      × Approves claims attempt.handle attempt.op manager (some proposer.sub) fresh now
unfolding check
manager_approval-second platform attempt now manager fresh issuer roles e h =
    elim (Option-cases attempt.ctx.oidc_claims) [
      | inl absent ↦ absurd (cc (rw (e, absent) at h))
      | inr (proposer, present) ↦
          let (i, token, at, v) =
            first_accepted-token
              (λ t.
                verify_approval_token platform t attempt.handle attempt.op manager
                  (some proposer.sub) fresh now)
              none attempt.approvals (rw (e, present) at h) in
          let (claims, d, a) =
            decoded platform token attempt.handle attempt.op manager (some proposer.sub) fresh now
              v in
          (proposer, i, token, claims, present, at, d, a)
    ]
