-- ===== src/Vault/Access/Granted.antt =====
-- `evaluate_op` of crates/enclave-os-vault/src/policy.rs grants exactly what a rule of the policy
-- grants to the caller with its conditions met.
use privasys_enclave_os_mini.Common.{
  ℕ, zero, suc, Bool, true, not, ◌||◌, Option, none, some, List, [], ◌∷◌, ◌≡◌, refl, sym, ap, ◌∙◌,
  ◌⊎◌, ==_iff, inl, inr, ◌↔◌, get_elem?, Bool-cases, Option-cases, All,
}
use privasys_enclave_os_mini.Common.Results.{Result-cases, ok, ◌>>◌}
use privasys_enclave_os_mini.Vault.Types.{
  Operation, owner_ref, manager_ref, auditor_ref, tee_ref, any_tee_ref, Operation-discrete,
  OperationRule, PrincipalRef, CallerRole, Condition,
}
use privasys_enclave_os_mini.Vault.Texts.{contains, holds}
use privasys_enclave_os_mini.Vault.Texts.Equality.{
  or-false, not-false, any-found, found-any, holds-true, true-holds,
}
use privasys_enclave_os_mini.Vault.Platform.{Platform}
use privasys_enclave_os_mini.Vault.Caller.{resolve_caller}
use privasys_enclave_os_mini.Vault.Approval.{PolicyError}
use privasys_enclave_os_mini.Vault.Conditions.{
  Attempt, check, check_all, evaluate_conditions, time_or_zero,
}
use privasys_enclave_os_mini.Vault.Access.{ref_grants, rule_grants_to, first_granting, evaluate_op}

-- `check_all` stops at the first condition that is not met.
check_all-All :
    (platform : Platform) (attempt : Attempt) (now : ℕ) (conds : List Condition)
    → check_all platform attempt now conds ≡ ok tt
    → All (λ cond. check platform attempt now cond ≡ ok tt) conds
check_all-All platform attempt now [] h = tt
check_all-All platform attempt now (cond ∷ conds) h =
    elim (Result-cases (check platform attempt now cond)) [
      | inl e ↦ (
        e,
        check_all-All platform attempt now conds
            (sym (ap (λ r. r >> check_all platform attempt now conds) e) ∙ h),
      )
      | inr (e, q) ↦ absurd (cc (sym (ap (λ r. r >> check_all platform attempt now conds) q) ∙ h))
    ]

All-check_all :
    (platform : Platform) (attempt : Attempt) (now : ℕ) (conds : List Condition)
    → All (λ cond. check platform attempt now cond ≡ ok tt) conds
    → check_all platform attempt now conds ≡ ok tt
All-check_all platform attempt now [] h = refl
All-check_all platform attempt now (cond ∷ conds) (e, h) =
    ap (λ r. r >> check_all platform attempt now conds) e
    ∙ All-check_all platform attempt now conds h

-- A principal that a rule names is the caller, or any TEE where the caller is one.
abbrev pub Names : PrincipalRef → PrincipalRef → Type 0
Names named caller =
    ((named ≡ caller) × ¬ (caller ≡ any_tee_ref))
    ⊎ ((named ≡ any_tee_ref) × ((i : ℕ) × (caller ≡ tee_ref i)))

-- The rule lists the operation, and names the caller among its principals.
abbrev pub Lists : OperationRule → Operation → Type 0
Lists rule op = (i : ℕ) × (get_elem? rule.ops i ≡ some op)

abbrev pub NamesOne : OperationRule → PrincipalRef → Type 0
NamesOne rule caller =
    (i : ℕ) × (named : PrincipalRef) × (get_elem? rule.principals i ≡ some named)
    × Names named caller

ref_grants-Names :
    (named caller : PrincipalRef) → ref_grants named caller ≡ true → Names named caller
unfolding ref_grants
ref_grants-Names owner_ref owner_ref h = inl (refl, λ q. cc q)
ref_grants-Names (manager_ref a) (manager_ref b) h =
    inl (ap manager_ref ((==_iff a b).0 h), λ q. cc q)
ref_grants-Names (auditor_ref a) (auditor_ref b) h =
    inl (ap auditor_ref ((==_iff a b).0 h), λ q. cc q)
ref_grants-Names (tee_ref a) (tee_ref b) h = inl (ap tee_ref ((==_iff a b).0 h), λ q. cc q)
ref_grants-Names any_tee_ref (tee_ref i) h = inr (refl, (i, refl))
ref_grants-Names owner_ref (manager_ref _) h = absurd (cc h)
ref_grants-Names owner_ref (auditor_ref _) h = absurd (cc h)
ref_grants-Names owner_ref (tee_ref _) h = absurd (cc h)
ref_grants-Names owner_ref any_tee_ref h = absurd (cc h)
ref_grants-Names (manager_ref _) owner_ref h = absurd (cc h)
ref_grants-Names (manager_ref _) (auditor_ref _) h = absurd (cc h)
ref_grants-Names (manager_ref _) (tee_ref _) h = absurd (cc h)
ref_grants-Names (manager_ref _) any_tee_ref h = absurd (cc h)
ref_grants-Names (auditor_ref _) owner_ref h = absurd (cc h)
ref_grants-Names (auditor_ref _) (manager_ref _) h = absurd (cc h)
ref_grants-Names (auditor_ref _) (tee_ref _) h = absurd (cc h)
ref_grants-Names (auditor_ref _) any_tee_ref h = absurd (cc h)
ref_grants-Names (tee_ref _) owner_ref h = absurd (cc h)
ref_grants-Names (tee_ref _) (manager_ref _) h = absurd (cc h)
ref_grants-Names (tee_ref _) (auditor_ref _) h = absurd (cc h)
ref_grants-Names (tee_ref _) any_tee_ref h = absurd (cc h)
ref_grants-Names any_tee_ref owner_ref h = absurd (cc h)
ref_grants-Names any_tee_ref (manager_ref _) h = absurd (cc h)
ref_grants-Names any_tee_ref (auditor_ref _) h = absurd (cc h)
ref_grants-Names any_tee_ref any_tee_ref h = absurd (cc h)

ref_grants_self :
    (caller : PrincipalRef) → ¬ (caller ≡ any_tee_ref) → ref_grants caller caller ≡ true
unfolding ref_grants
ref_grants_self owner_ref n = refl
ref_grants_self (manager_ref i) n = (==_iff i i).1 refl
ref_grants_self (auditor_ref i) n = (==_iff i i).1 refl
ref_grants_self (tee_ref i) n = (==_iff i i).1 refl
ref_grants_self any_tee_ref n = absurd (n refl)

Names-ref_grants :
    (named caller : PrincipalRef) → Names named caller → ref_grants named caller ≡ true
unfolding ref_grants
Names-ref_grants named caller (inl (same, n)) =
    ap (λ r. ref_grants r caller) same ∙ ref_grants_self caller n
Names-ref_grants named caller (inr (any, (i, is_tee))) =
    ap (λ r. ref_grants r caller) any ∙ ap (ref_grants any_tee_ref) is_tee

rule_grants_to_iff :
    (rule : OperationRule) (caller : PrincipalRef)
    → (rule_grants_to rule caller ≡ true) ↔ NamesOne rule caller
unfolding rule_grants_to
rule_grants_to_iff rule caller = (
  λ h.
      let (i, named, at_i, g) = any-found (λ p. ref_grants p caller) rule.principals h in
      (i, named, at_i, ref_grants-Names named caller g),
  λ (i, named, at_i, names).
      found-any (λ p. ref_grants p caller) rule.principals i named at_i
        (Names-ref_grants named caller names),
)

contains_iff :
    (rule : OperationRule) (op : Operation)
    → (contains Operation-discrete op rule.ops ≡ true) ↔ Lists rule op
contains_iff rule op = (
  λ h.
      let (i, o, at_i, same) = any-found (λ y. holds (Operation-discrete op y)) rule.ops h in
      (i, at_i ∙ ap some (sym (holds-true (Operation-discrete op o) same))),
  λ (i, at_i).
      found-any (λ y. holds (Operation-discrete op y)) rule.ops i op at_i
        (true-holds (Operation-discrete op op) refl),
)

-- The rule at a place of the list lists the operation, names the caller, and has its
-- conditions met.
abbrev pub Grants :
    Platform → Attempt → PrincipalRef → List OperationRule → ℕ → OperationRule → Type 0
Grants platform attempt caller rules i rule =
    (get_elem? rules i ≡ some rule)
    × Lists rule attempt.op
    × NamesOne rule caller
    × All (λ cond. check platform attempt (time_or_zero platform.get_current_time) cond ≡ ok tt)
        rule.requires

module _ (platform : Platform) (attempt : Attempt) (caller : PrincipalRef) where
  abbrev skips : OperationRule → Bool
  skips rule =
      not (contains Operation-discrete attempt.op rule.ops) || not (rule_grants_to rule caller)

  first_granting-Grants :
      (rules : List OperationRule) (last : Option PolicyError)
      → first_granting platform attempt caller last rules ≡ ok tt
      → (i : ℕ) × (rule : OperationRule) × Grants platform attempt caller rules i rule
  unfolding first_granting evaluate_conditions
  first_granting-Grants [] last h = absurd (cc h)
  first_granting-Grants (rule ∷ rules) last h = elim (Bool-cases (skips rule)) [
    | inl s ↦ let (i, r, g) = first_granting-Grants rules last (rw s at h) in (suc i, r, g)
    | inr s ↦
        let (c, g) = or-false _ _ s in
        elim (Result-cases (evaluate_conditions platform attempt rule.requires)) [
          | inl e ↦ (
            0,
            rule,
            (
              refl,
              (contains_iff rule attempt.op).0 (not-false _ c),
              (rule_grants_to_iff rule caller).0 (not-false _ g),
              check_all-All platform attempt (time_or_zero platform.get_current_time) rule.requires
                  e,
            ),
          )
          | inr (e, q) ↦
              let (i, r, g) = first_granting-Grants rules (some e) (rw (s, q) at h) in (suc i, r, g)
        ]
  ]

  first_granting-met :
      (rule r : OperationRule) (rules : List OperationRule) (last : Option PolicyError)
      → r ≡ rule
      → contains Operation-discrete attempt.op r.ops ≡ true
      → rule_grants_to r caller ≡ true
      → All
          (λ cond. check platform attempt (time_or_zero platform.get_current_time) cond ≡ ok tt)
          r.requires
      → first_granting platform attempt caller last (rule ∷ rules) ≡ ok tt
  unfolding first_granting evaluate_conditions
  first_granting-met rule r rules last e c g h =
      let c' : contains Operation-discrete attempt.op rule.ops ≡ true = cc (e, c) in
      let g' : rule_grants_to rule caller ≡ true = cc (e, g) in
      let k : check_all platform attempt (time_or_zero platform.get_current_time) rule.requires
          ≡ ok tt =
        ap (λ x. check_all platform attempt (time_or_zero platform.get_current_time) x.requires)
          (sym e)
        ∙ All-check_all platform attempt (time_or_zero platform.get_current_time) r.requires h in
      rw (c', g', k)

  Grants-first_granting :
      (rules : List OperationRule) (i : ℕ) (r : OperationRule) (last : Option PolicyError)
      → Grants platform attempt caller rules i r
      → first_granting platform attempt caller last rules ≡ ok tt
  unfolding first_granting
  Grants-first_granting [] i r last (e, _, _, _) = absurd (cc e)
  Grants-first_granting (rule ∷ rules) zero r last (e, c, g, h) =
      first_granting-met rule r rules last (cc e) ((contains_iff r attempt.op).1 c)
        ((rule_grants_to_iff r caller).1 g) h
  Grants-first_granting (rule ∷ rules) (suc i) r last grants = elim (Bool-cases (skips rule)) [
    | inl s ↦ rw s (Grants-first_granting rules i r last grants)
    | inr s ↦ elim (Result-cases (evaluate_conditions platform attempt rule.requires)) [
      | inl e ↦ rw (s, e)
      | inr (e, q) ↦ rw (s, q) (Grants-first_granting rules i r (some e) grants)
    ]
  ]

-- An operation is allowed exactly when the caller resolves to a principal of the policy and some
-- rule of the policy lists the operation, names that principal or, where it is an attested one, any
-- TEE, and has every one of its conditions met at the current time.
pub evaluate_op_iff :
    (platform : Platform) (attempt : Attempt)
    → (evaluate_op platform attempt ≡ ok tt) ↔ (
        (caller : PrincipalRef) × (role : CallerRole) × (i : ℕ) × (rule : OperationRule)
        × (resolve_caller platform attempt.policy attempt.ctx ≡ some (caller, role))
        × Grants platform attempt caller attempt.policy.operations i rule)
unfolding evaluate_op
evaluate_op_iff platform attempt = (granted, granting)
  where
    granted :
        evaluate_op platform attempt ≡ ok tt
        → (caller : PrincipalRef) × (role : CallerRole) × (i : ℕ) × (rule : OperationRule)
          × (resolve_caller platform attempt.policy attempt.ctx ≡ some (caller, role))
          × Grants platform attempt caller attempt.policy.operations i rule
    granted h = elim (Option-cases (resolve_caller platform attempt.policy attempt.ctx)) [
      | inl e ↦ absurd (cc (rw e at h))
      | inr ((caller, role), e) ↦
          let (i, rule, g) =
            first_granting-Grants platform attempt caller attempt.policy.operations none
              (rw e at h) in
          (caller, role, i, rule, e, g)
    ]

    granting :
        ((caller : PrincipalRef) × (role : CallerRole) × (i : ℕ) × (rule : OperationRule)
          × (resolve_caller platform attempt.policy attempt.ctx ≡ some (caller, role))
          × Grants platform attempt caller attempt.policy.operations i rule)
        → evaluate_op platform attempt ≡ ok tt
    granting (caller, role, i, rule, e, g) =
        rw e (Grants-first_granting platform attempt caller attempt.policy.operations i rule none g)
