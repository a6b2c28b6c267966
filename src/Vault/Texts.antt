-- ===== src/Vault/Texts.antt =====
-- The comparisons on texts and lists that crates/enclave-os-vault uses.
pub mod Equality
use privasys_enclave_os_mini.Common.{
  ℕ, ◌+◌, Bool, true, false, ◌&&◌, List, [], ◌∷◌, ◌≡◌, refl, ◌⊎◌, inl, inr, leb, if◌then◌else◌, any,
  all, map,
}
use privasys_enclave_os_mini.Vault.Types.{String, String-discrete}

-- `a == b`, by a decision of the equality
abbrev pub holds {ℓ} : {P : Type ℓ} → Dec P → Bool
holds (yes _) = true
holds (no _) = false

-- `xs.contains(x)`
abbrev pub contains {ℓ} : {A : Type ℓ} → Discrete A → A → List A → Bool
contains eq x xs = any (λ y. holds (eq x y)) xs

unfoldable pub str_eq : String → String → Bool
str_eq a b = holds (String-discrete a b)

abbrev pub is_empty {ℓ} : {A : Type ℓ} → List A → Bool
is_empty [] = true
is_empty (x ∷ xs) = false

-- `to_ascii_lowercase` of a byte
abbrev pub to_ascii_lowercase : ℕ → ℕ
to_ascii_lowercase c = if leb 65 c && leb c 90 then c + 32 else c

unfoldable pub eq_ignore_ascii_case : String → String → Bool
eq_ignore_ascii_case a b = str_eq (map to_ascii_lowercase a) (map to_ascii_lowercase b)

-- `same_elements` of policy.rs
abbrev pub same_elements {ℓ} : {A : Type ℓ} → Discrete A → List A → List A → Bool
same_elements eq a b = all (λ x. contains eq x b) a && all (λ x. contains eq x a) b
