-- ===== src/Vault/Update/Kept.antt =====
-- What an accepted `evaluate_policy_update` of crates/enclave-os-vault/src/policy.rs keeps.
use privasys_enclave_os_mini.Common.{
  Bool, true, false, not, ◌&&◌, ◌||◌, List, [], ◌∷◌, map, any, all, ◌≡◌, refl, sym, ap, ◌∙◌, ◌⊎◌,
  inl, inr, Bool-cases,
}
use privasys_enclave_os_mini.Common.Results.{Result, ok, err, ◌>>=◌}
use privasys_enclave_os_mini.Vault.Types.{
  String, PolicyField, OidRequirement, KeyPolicy, CallerRole, owner_role, CallerRole-discrete,
}
use privasys_enclave_os_mini.Vault.Texts.{holds, str_eq, is_empty}
use privasys_enclave_os_mini.Vault.Texts.Equality.{
  true≢false, or-true, and-true, holds-true, not-false, refuse_if_iff, refuse_if-last, str_eq-true,
}
use privasys_enclave_os_mini.Vault.Approval.{PolicyError}
use privasys_enclave_os_mini.Vault.Update.{
  list_eq, bool_eq, diff_policy_fields, tee_oids, retain, requires_oid, retain_all, common_oids,
  key_required_oids, allowed_fields, check_fields, check_oids_kept, evaluate_policy_update,
}
use mathlib.Core.Path.{ap₂}

pub list_eq-true {ℓ} :
    {A : Type ℓ} (eq : Discrete A) (xs ys : List A) → list_eq eq xs ys ≡ true → xs ≡ ys
list_eq-true eq [] [] h = refl
list_eq-true eq [] (y ∷ ys) h = absurd (cc h)
list_eq-true eq (x ∷ xs) [] h = absurd (cc h)
list_eq-true eq (x ∷ xs) (y ∷ ys) h =
    let (p, q) = and-true _ _ h in
    ap₂ (λ z zs. z ∷ zs) (holds-true (eq x y) p) (list_eq-true eq xs ys q)

-- A text among texts.
abbrev pub among : String → List String → Bool
among oid oids = any (λ o. str_eq o oid) oids

and-false : (b : Bool) → (b && false) ≡ false
and-false true = refl
and-false false = refl

and-true_right : (b : Bool) → (b && true) ≡ b
and-true_right true = refl
and-true_right false = refl

and_assoc : (a b c : Bool) → ((a && b) && c) ≡ (a && (b && c))
and_assoc true b c = refl
and_assoc false b c = refl

retain-among :
    (p : String → Bool) (oid : String) (oids : List String)
    → among oid (retain p oids) ≡ (among oid oids && p oid)
retain-among p oid [] = refl
retain-among p oid (o ∷ os) = elim (Bool-cases (p o)) [
  | inl e ↦ elim (Bool-cases (str_eq o oid)) [
    | inl s ↦ let q : p oid ≡ true = ap p (sym (str_eq-true o oid s)) ∙ e in rw (e, s, q)
    | inr s ↦ rw (e, s) (retain-among p oid os)
  ]
  | inr e ↦ elim (Bool-cases (str_eq o oid)) [
    | inl s ↦
        let q : p oid ≡ false = ap p (sym (str_eq-true o oid s)) ∙ e in
        rw (e, s, q)
          (retain-among p oid os ∙ ap (λ b. among oid os && b) q ∙ and-false (among oid os))
    | inr s ↦ rw (e, s) (retain-among p oid os)
  ]
]

retain_all-among :
    (oid : String) (rest : List (List OidRequirement)) (acc : List String)
    → among oid (retain_all rest acc) ≡ (among oid acc && all (λ reqs. requires_oid reqs oid) rest)
retain_all-among oid [] acc = sym (and-true_right (among oid acc))
retain_all-among oid (reqs ∷ rest) acc =
    retain_all-among oid rest (retain (requires_oid reqs) acc)
    ∙ ap (λ b. b && all (λ reqs. requires_oid reqs oid) rest)
        (retain-among (requires_oid reqs) oid acc)
    ∙ and_assoc (among oid acc) (requires_oid reqs oid) (all (λ reqs. requires_oid reqs oid) rest)

map-among :
    (oid : String) (reqs : List OidRequirement)
    → among oid (map (λ r. r.oid) reqs) ≡ requires_oid reqs oid
map-among oid [] = refl
map-among oid (r ∷ reqs) = ap (λ b. str_eq r.oid oid || b) (map-among oid reqs)

-- There are attested principals, and the profile of each requires the OID.
abbrev pub every_tee_requires : KeyPolicy → String → Bool
every_tee_requires policy oid =
    let reqs = tee_oids policy.principals.tees in
    not (is_empty reqs) && all (λ r. requires_oid r oid) reqs

-- An OID is among the required ones of a key exactly when the key has attested principals and the
-- profile of every one of them requires it.
pub key_required_oids_lem :
    (policy : KeyPolicy) (oid : String)
    → among oid (key_required_oids policy) ≡ every_tee_requires policy oid
unfolding key_required_oids
key_required_oids_lem policy oid = go (tee_oids policy.principals.tees)
  where
    go :
        (reqs : List (List OidRequirement))
        → among oid (common_oids reqs) ≡ (not (is_empty reqs) && all (λ r. requires_oid r oid) reqs)
    go [] = refl
    go (first ∷ rest) =
        retain_all-among oid rest (map (λ r. r.oid) first)
        ∙ ap (λ b. b && all (λ reqs. requires_oid reqs oid) rest) (map-among oid first)

pub check_oids_kept-among :
    (oid : String) (new old : List String)
    → check_oids_kept new old ≡ ok tt
    → among oid old ≡ true
    → among oid new ≡ true
unfolding check_oids_kept
check_oids_kept-among oid new [] h e = absurd (true≢false (sym e))
check_oids_kept-among oid new (o ∷ os) h e =
    let (kept, rest) = (refuse_if_iff _ _ (check_oids_kept new os)).0 h in
    elim (or-true (str_eq o oid) (among oid os) e) [
      | inl s ↦ ap (λ x. among x new) (sym (str_eq-true o oid s)) ∙ not-false _ kept
      | inr s ↦ check_oids_kept-among oid new os rest s
    ]

bind-ok :
    {A : Type 0} (r : Result PolicyError A) (f : A → Result PolicyError (Unit {0}))
    → (r >>= f) ≡ ok tt
    → (a : A) × (r ≡ ok a) × (f a ≡ ok tt)
bind-ok (ok a) f h = (a, refl, h)
bind-ok (err e) f h = absurd (cc h)

-- What an accepted update that changes a field has passed.
unfoldable pub Passed : KeyPolicy → KeyPolicy → CallerRole → Type 0
Passed old new role =
    (allowed : List PolicyField) × (allowed_fields role old.mutability ≡ ok allowed)
    × (check_fields old.mutability.immutable allowed (diff_policy_fields old new) ≡ ok tt)
    × (check_oids_kept (key_required_oids new) (key_required_oids old) ≡ ok tt)
    × ((not (
            bool_eq old.lifecycle.auto_migrate_to_next_attestation_profile
              new.lifecycle.auto_migrate_to_next_attestation_profile)
          && not (holds (CallerRole-discrete role owner_role)))
        ≡ false)

pub update-Passed :
    (old new : KeyPolicy) (role : CallerRole)
    → evaluate_policy_update old new role ≡ ok tt
    → (is_empty (diff_policy_fields old new) ≡ true) ⊎ Passed old new role
unfolding evaluate_policy_update Passed
update-Passed old new role h = elim (Bool-cases (is_empty (diff_policy_fields old new))) [
  | inl e ↦ inl e
  | inr e ↦
      let (allowed, role_may, rest) = bind-ok _ _ (rw e at h) in
      let (u, fields, rest') = bind-ok _ _ rest in
      let (v, oids, last) = bind-ok _ _ rest' in
      inr (allowed, role_may, fields, oids, (refuse_if-last _ _).0 last)
]
