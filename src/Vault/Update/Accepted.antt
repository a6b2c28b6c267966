-- ===== src/Vault/Update/Accepted.antt =====
-- The guarantees of an accepted `evaluate_policy_update` of crates/enclave-os-vault/src/policy.rs.
use privasys_enclave_os_mini.Common.{
  Bool, true, false, not, ◌&&◌, ◌++◌, List, all, [], ◌∷◌, ◌≡◌, refl, sym, ap, ◌∙◌, inl, inr, All,
  Bool-cases, ◌⊎◌,
}
use privasys_enclave_os_mini.Common.Results.{ok}
use privasys_enclave_os_mini.Vault.Types.{
  String, Principal-discrete, OperationRule-discrete, Lifecycle-discrete, Mutability-discrete,
  Mutability, PolicyField, owner_field, managers_field, auditors_field, tees_field,
  operations_field, lifecycle_field, mutability_field, PolicyField-discrete, KeyPolicy, CallerRole,
  owner_role, manager_role, auditor_role, tee_role, CallerRole-discrete,
}
use privasys_enclave_os_mini.Vault.Texts.{holds, contains, is_empty}
use privasys_enclave_os_mini.Vault.Texts.Equality.{holds-true, not-false, true≢false, refuse_if_iff}
use privasys_enclave_os_mini.Vault.Update.{
  list_eq, bool_eq, changed, diff_policy_fields, tee_oids, requires_oid, key_required_oids,
  allowed_fields, check_fields, evaluate_policy_update,
}
use privasys_enclave_os_mini.Vault.Update.Kept.{
  list_eq-true, every_tee_requires, key_required_oids_lem, check_oids_kept-among, Passed,
  update-Passed,
}

changes_none :
    (owner managers auditors tees operations lifecycle mutability : Bool)
    → is_empty (
        changed owner owner_field
        ++ (changed managers managers_field
            ++ (changed auditors auditors_field
                ++ (changed tees tees_field
                    ++ (changed operations operations_field
                        ++ (changed lifecycle lifecycle_field
                            ++ changed mutability mutability_field))))))
      ≡ true
    → (tees ≡ true) × (lifecycle ≡ true)
changes_none true true true true true true m h = (refl, refl)
changes_none true true true true true false m h = absurd (cc h)
changes_none true true true true false l m h = absurd (cc h)
changes_none true true true false o l m h = absurd (cc h)
changes_none true true false t o l m h = absurd (cc h)
changes_none true false a t o l m h = absurd (cc h)
changes_none false g a t o l m h = absurd (cc h)

-- Policies in which no field differs have the same attested principals and the same lifecycle.
unchanged :
    (old new : KeyPolicy)
    → is_empty (diff_policy_fields old new) ≡ true
    → (old.principals.tees ≡ new.principals.tees) × (old.lifecycle ≡ new.lifecycle)
unfolding diff_policy_fields
unchanged old new h =
    let (tees, life) =
      changes_none (holds (Principal-discrete old.principals.owner new.principals.owner))
        (list_eq Principal-discrete old.principals.managers new.principals.managers)
        (list_eq Principal-discrete old.principals.auditors new.principals.auditors)
        (list_eq Principal-discrete old.principals.tees new.principals.tees)
        (list_eq OperationRule-discrete old.operations new.operations)
        (holds (Lifecycle-discrete old.lifecycle new.lifecycle))
        (holds (Mutability-discrete old.mutability new.mutability)) h in
    (
      list_eq-true Principal-discrete _ _ tees,
      holds-true (Lifecycle-discrete old.lifecycle new.lifecycle) life,
    )

-- An accepted update keeps every OID that the profiles of all attested principals required: the
-- policy still has attested principals, and the profile of each still requires that OID.
pub update-keeps_oids :
    (old new : KeyPolicy) (role : CallerRole) (oid : String)
    → evaluate_policy_update old new role ≡ ok tt
    → every_tee_requires old oid ≡ true
    → every_tee_requires new oid ≡ true
unfolding Passed
update-keeps_oids old new role oid h required = elim (update-Passed old new role h) [
  | inl e ↦
      ap (λ ps. not (is_empty (tee_oids ps)) && all (λ r. requires_oid r oid) (tee_oids ps))
        (sym (unchanged old new e).0)
      ∙ required
  | inr (allowed, _, _, kept, _) ↦
      sym (key_required_oids_lem new oid)
      ∙ check_oids_kept-among oid (key_required_oids new) (key_required_oids old) kept
          (key_required_oids_lem old oid ∙ required)
]

bool_eq-false : (a b : Bool) → not (bool_eq a b) ≡ false → a ≡ b
bool_eq-false true true h = refl
bool_eq-false false false h = refl
bool_eq-false true false h = absurd (cc h)
bool_eq-false false true h = absurd (cc h)

-- An accepted update that changes the auto-migrate flag comes from the owner.
pub update-auto_migrate :
    (old new : KeyPolicy) (role : CallerRole)
    → evaluate_policy_update old new role ≡ ok tt
    → ¬ (
        old.lifecycle.auto_migrate_to_next_attestation_profile
        ≡ new.lifecycle.auto_migrate_to_next_attestation_profile)
    → role ≡ owner_role
unfolding Passed
update-auto_migrate old new role h differs = elim (update-Passed old new role h) [
  | inl e ↦
      absurd
        (differs (ap (λ l. l.auto_migrate_to_next_attestation_profile) (unchanged old new e).1))
  | inr (allowed, _, _, _, flag) ↦ elim (Bool-cases (not (bool_eq a b))) [
    | inl e ↦ holds-true (CallerRole-discrete role owner_role) (
        not-false (holds (CallerRole-discrete role owner_role))
          (sym (ap (λ x. x && not (holds (CallerRole-discrete role owner_role))) e) ∙ flag))
    | inr e ↦ absurd (differs (bool_eq-false a b e))
  ]
]
  where
    a : Bool
    a = old.lifecycle.auto_migrate_to_next_attestation_profile

    b : Bool
    b = new.lifecycle.auto_migrate_to_next_attestation_profile

-- Whether a role may change a field, by the old policy's own table.
abbrev pub may_change : CallerRole → Mutability → PolicyField → Bool
may_change owner_role m field = contains PolicyField-discrete field m.owner_can
may_change manager_role m field = contains PolicyField-discrete field m.manager_can
may_change auditor_role m field = false
may_change tee_role m field = false

check_fields-All :
    (immutable allowed fields : List PolicyField)
    → check_fields immutable allowed fields ≡ ok tt
    → All
        (λ f.
          (contains PolicyField-discrete f immutable ≡ false)
          × (contains PolicyField-discrete f allowed ≡ true))
        fields
unfolding check_fields
check_fields-All immutable allowed [] h = tt
check_fields-All immutable allowed (f ∷ fields) h =
    let (fixed, h') = (refuse_if_iff _ _ _).0 h in
    let (may, rest) = (refuse_if_iff _ _ (check_fields immutable allowed fields)).0 h' in
    ((fixed, not-false _ may), check_fields-All immutable allowed fields rest)

-- Every field that counts as changed in an accepted update may be changed.
changed_fields-may_change :
    (old new : KeyPolicy) (role : CallerRole)
    → evaluate_policy_update old new role ≡ ok tt
    → All
        (λ f.
          (contains PolicyField-discrete f old.mutability.immutable ≡ false)
          × (may_change role old.mutability f ≡ true))
        (diff_policy_fields old new)
unfolding Passed
changed_fields-may_change old new role h = elim (update-Passed old new role h) [
  | inl e ↦ none_changed (diff_policy_fields old new) e
  | inr (allowed, may, fields, _, _) ↦
      by_role role allowed (diff_policy_fields old new) may
        (check_fields-All old.mutability.immutable allowed (diff_policy_fields old new) fields)
]
  where
    Fine : CallerRole → List PolicyField → Type 0
    Fine r fields =
        All
          (λ f.
            (contains PolicyField-discrete f old.mutability.immutable ≡ false)
            × (may_change r old.mutability f ≡ true))
          fields

    none_changed : (fields : List PolicyField) → is_empty fields ≡ true → Fine role fields
    none_changed [] e = tt
    none_changed (f ∷ fields) e = absurd (cc e)

    by_role :
        (r : CallerRole) (allowed fields : List PolicyField)
        → allowed_fields r old.mutability ≡ ok allowed
        → All
            (λ f.
              (contains PolicyField-discrete f old.mutability.immutable ≡ false)
              × (contains PolicyField-discrete f allowed ≡ true))
            fields
        → Fine r fields
    by_role r allowed [] e fine = tt
    by_role owner_role allowed (f ∷ fields) e ((fixed, may), fine) = (
      (fixed, ap (contains PolicyField-discrete f) (cc e) ∙ may),
      by_role owner_role allowed fields e fine,
    )
    by_role manager_role allowed (f ∷ fields) e ((fixed, may), fine) = (
      (fixed, ap (contains PolicyField-discrete f) (cc e) ∙ may),
      by_role manager_role allowed fields e fine,
    )
    by_role auditor_role allowed (f ∷ fields) e fine = absurd (cc e)
    by_role tee_role allowed (f ∷ fields) e fine = absurd (cc e)

-- The old policy does not hold the field immutable, and its mutability table lets the role change it.
abbrev pub MayChange : CallerRole → Mutability → PolicyField → Type 0
MayChange role m field =
    (contains PolicyField-discrete field m.immutable ≡ false) × (may_change role m field ≡ true)

All-append_parts :
    (P : PolicyField → Type 0) (a b : List PolicyField) → All P (a ++ b) → All P a × All P b
All-append_parts P [] b h = (tt, h)
All-append_parts P (f ∷ a) b (here, later) =
    let (l, r) = All-append_parts P a b later in ((here, l), r)

changed-All :
    (P : PolicyField → Type 0) (same : Bool) (field : PolicyField)
    → All P (changed same field)
    → (same ≡ true) ⊎ P field
changed-All P true field h = inl refl
changed-All P false field h = inr h.0

module _ {ℓ} {A : Type ℓ} (eq : Discrete A) (P : PolicyField → Type 0) (field : PolicyField) where
  -- A field that is compared as a whole, or as a list, is as it was or has the property.
  kept_or : (a b : A) → All P (changed (holds (eq a b)) field) → (a ≡ b) ⊎ P field
  kept_or a b h = elim (changed-All P (holds (eq a b)) field h) [
    | inl same ↦ inl (holds-true (eq a b) same)
    | inr may ↦ inr may
  ]

  list_kept_or : (a b : List A) → All P (changed (list_eq eq a b) field) → (a ≡ b) ⊎ P field
  list_kept_or a b h = elim (changed-All P (list_eq eq a b) field h) [
    | inl same ↦ inl (list_eq-true eq a b same)
    | inr may ↦ inr may
  ]

-- An accepted update leaves each of the seven parts of the policy (the owner, the managers, the
-- auditors, the attested principals, the operations, the lifecycle and the mutability table) as it
-- is, or else the old policy does not hold that part's field immutable and its mutability table lets
-- the caller's role change it.
pub update-fields :
    (old new : KeyPolicy) (role : CallerRole)
    → evaluate_policy_update old new role ≡ ok tt
    → ((old.principals.owner ≡ new.principals.owner) ⊎ MayChange role old.mutability owner_field)
      × ((old.principals.managers ≡ new.principals.managers)
          ⊎ MayChange role old.mutability managers_field)
      × ((old.principals.auditors ≡ new.principals.auditors)
          ⊎ MayChange role old.mutability auditors_field)
      × ((old.principals.tees ≡ new.principals.tees) ⊎ MayChange role old.mutability tees_field)
      × ((old.operations ≡ new.operations) ⊎ MayChange role old.mutability operations_field)
      × ((old.lifecycle ≡ new.lifecycle) ⊎ MayChange role old.mutability lifecycle_field)
      × ((old.mutability ≡ new.mutability) ⊎ MayChange role old.mutability mutability_field)
unfolding diff_policy_fields
update-fields old new role h =
    let P = MayChange role old.mutability in
    let (owner, h1) = All-append_parts P _ _ (changed_fields-may_change old new role h) in
    let (managers, h2) = All-append_parts P _ _ h1 in
    let (auditors, h3) = All-append_parts P _ _ h2 in
    let (tees, h4) = All-append_parts P _ _ h3 in
    let (operations, h5) = All-append_parts P _ _ h4 in
    let (lifecycle, mutability) = All-append_parts P _ _ h5 in
    (
      kept_or Principal-discrete P owner_field _ _ owner,
      list_kept_or Principal-discrete P managers_field _ _ managers,
      list_kept_or Principal-discrete P auditors_field _ _ auditors,
      list_kept_or Principal-discrete P tees_field _ _ tees,
      list_kept_or OperationRule-discrete P operations_field _ _ operations,
      kept_or Lifecycle-discrete P lifecycle_field _ _ lifecycle,
      kept_or Mutability-discrete P mutability_field _ _ mutability,
    )

-- An accepted update leaves the owner as it is where the old policy holds the owner immutable.
pub update-immutable_owner :
    (old new : KeyPolicy) (role : CallerRole)
    → evaluate_policy_update old new role ≡ ok tt
    → contains PolicyField-discrete owner_field old.mutability.immutable ≡ true
    → old.principals.owner ≡ new.principals.owner
update-immutable_owner old new role h fixed = elim (update-fields old new role h).0 [
  | inl same ↦ same
  | inr may ↦ absurd (true≢false (sym fixed ∙ may.0))
]
