-- ===== src/Vault/Texts/Equality.antt =====
-- The comparisons of crates/enclave-os-vault decide the equalities that they stand for.
pub use privasys_enclave_os_mini.Common.Tests.{
  true≢false, and-true, or-false, or-true, not-false, not-true,
}
use privasys_enclave_os_mini.Common.{
  ℕ, zero, suc, Bool, true, false, ◌||◌, some, List, [], ◌∷◌, ◌≡◌, refl, ap, inl, inr, ◌↔◌, any,
  all, All, get_elem?, Bool-cases,
}
use privasys_enclave_os_mini.Common.Results.{Result, ok, ◌>>◌, refuse_if}
use privasys_enclave_os_mini.Vault.Types.{String, String-discrete}
use privasys_enclave_os_mini.Vault.Texts.{holds, str_eq}

module _ {ℓ} {P : Type ℓ} where
  pub holds-true : (d : Dec P) → holds d ≡ true → P
  holds-true (yes p) e = p
  holds-true (no n) e = absurd (cc e)

  pub true-holds : (d : Dec P) → P → holds d ≡ true
  true-holds (yes p) q = refl
  true-holds (no n) q = absurd (n q)

  pub holds-false : (d : Dec P) → holds d ≡ false → ¬ P
  holds-false (yes p) e q = cc e
  holds-false (no n) e q = n q

  pub false-holds : (d : Dec P) → ¬ P → holds d ≡ false
  false-holds (yes p) n = absurd (n p)
  false-holds (no n') n = refl

pub str_eq-true : (a b : String) → str_eq a b ≡ true → a ≡ b
unfolding str_eq
str_eq-true a b e = holds-true (String-discrete a b) e

pub true-str_eq : (a b : String) → a ≡ b → str_eq a b ≡ true
unfolding str_eq
true-str_eq a b e = true-holds (String-discrete a b) e

pub str_eq-false : (a b : String) → str_eq a b ≡ false → ¬ (a ≡ b)
unfolding str_eq
str_eq-false a b e = holds-false (String-discrete a b) e

-- A guarded computation succeeds exactly when the guard is not met and the rest succeeds.
pub refuse_if_iff {κ} :
    {E : Type κ} (b : Bool) (e : E) (rest : Result E (Unit {0}))
    → ((refuse_if b e >> rest) ≡ ok tt) ↔ ((b ≡ false) × (rest ≡ ok tt))
refuse_if_iff true e rest = ((λ h. absurd (cc h)), λ h. absurd (true≢false h.0))
refuse_if_iff false e rest = ((λ h. (refl, h)), λ h. h.1)

-- The same at the end of a chain.
pub refuse_if-last {κ} : {E : Type κ} (b : Bool) (e : E) → (refuse_if b e ≡ ok tt) ↔ (b ≡ false)
refuse_if-last true e = ((λ h. absurd (cc h)), λ h. absurd (true≢false h))
refuse_if-last false e = ((λ h. refl), λ h. refl)

module _ {ℓ κ} {A : Type ℓ} {P : A → Type κ} where
  pub all-All :
      (p : A → Bool) → ((x : A) → p x ≡ true → P x) → (xs : List A) → all p xs ≡ true → All P xs
  all-All p imp [] e = tt
  all-All p imp (x ∷ xs) e =
      let (h, t) = and-true (p x) (all p xs) e in (imp x h, all-All p imp xs t)

module _ {ℓ} {A : Type ℓ} (p : A → Bool) where
  -- A test that holds of some element holds of the one at some place.
  pub any-found :
      (xs : List A) → any p xs ≡ true → (i : ℕ) × (x : A) × (get_elem? xs i ≡ some x) × (p x ≡ true)
  any-found [] e = absurd (cc e)
  any-found (x ∷ xs) e = elim (Bool-cases (p x)) [
    | inl here ↦ (0, x, refl, here)
    | inr gone ↦ let (i, y, at_i, h) = any-found xs (rw gone at e) in (suc i, y, at_i, h)
  ]

  pub found-any :
      (xs : List A) (i : ℕ) (x : A) → get_elem? xs i ≡ some x → p x ≡ true → any p xs ≡ true
  found-any [] i x e h = absurd (cc e)
  found-any (y ∷ xs) zero x e h = let same : p y ≡ true = cc (e, h) in ap (λ b. b || any p xs) same
  found-any (y ∷ xs) (suc i) x e h = elim (Bool-cases (p y)) [
    | inl here ↦ rw here
    | inr gone ↦ rw gone (found-any xs i x e h)
  ]
