-- ===== src/Merkle/Hash.antt =====
-- The tagged hashes of crates/enclave-os-merkle/src/hash.rs. SHA-256 itself, of the `ring` crate, is
-- the parameter `sha256`; successive `update` calls digest the concatenation of their parts.
use privasys_enclave_os_mini.Common.{
  ℕ, ◌≡◌, ◌≢◌, ◌⊎◌, inl, inr, List, [], ◌∷◌, ◌++◌, length, append_inj, refl, ap, arith,
}
use privasys_enclave_os_mini.Common.Bytes.{Bytes, byte_at}
use native.Mathlib.Decide.{ℕ_discrete}

abbrev pub Hash : Type 0
Hash = Bytes

abbrev pub hash_size : ℕ
hash_size = 32

-- A `[u8; 32]`, as far as its length goes.
abbrev pub IsHash : Hash → Type 0
IsHash h = length h ≡ 32

abbrev pub tag_leaf : Bytes
tag_leaf =
    101 ∷ 110 ∷ 99 ∷ 108 ∷ 97 ∷ 118 ∷ 101 ∷ 45 ∷ 111 ∷ 115 ∷ 45 ∷ 109 ∷ 101 ∷ 114 ∷ 107 ∷ 108 ∷ 101
    ∷ 58 ∷ 108 ∷ 101 ∷ 97 ∷ 102 ∷ 58 ∷ 118 ∷ 49 ∷ []

abbrev pub tag_internal : Bytes
tag_internal =
    101 ∷ 110 ∷ 99 ∷ 108 ∷ 97 ∷ 118 ∷ 101 ∷ 45 ∷ 111 ∷ 115 ∷ 45 ∷ 109 ∷ 101 ∷ 114 ∷ 107 ∷ 108 ∷ 101
    ∷ 58 ∷ 110 ∷ 111 ∷ 100 ∷ 101 ∷ 58 ∷ 118 ∷ 49 ∷ []

abbrev pub tag_placeholder : Bytes
tag_placeholder =
    69 ∷ 78 ∷ 67 ∷ 76 ∷ 65 ∷ 86 ∷ 69 ∷ 95 ∷ 79 ∷ 83 ∷ 95 ∷ 77 ∷ 69 ∷ 82 ∷ 75 ∷ 76 ∷ 69 ∷ 95 ∷ 80
    ∷ 76 ∷ 65 ∷ 67 ∷ 69 ∷ 72 ∷ 79 ∷ 76 ∷ 68 ∷ 69 ∷ 82 ∷ []

unfoldable pub Bytes-discrete : Discrete Bytes
Bytes-discrete = hlevel ℕ_discrete

-- The parts one after the other.
abbrev pub concat : List Bytes → Bytes
concat [] = []
concat (p ∷ parts) = p ++ concat parts

module _ (sha256 : Bytes → Hash) where
  unfoldable pub sha256_parts : List Bytes → Hash
  sha256_parts parts = sha256 (concat parts)

  unfoldable pub placeholder : Hash
  unfolding sha256_parts
  placeholder = sha256_parts (tag_placeholder ∷ [])

  unfoldable pub leaf_hash : Hash → Hash → Hash
  unfolding sha256_parts
  leaf_hash path vh = sha256_parts (tag_leaf ∷ path ∷ vh ∷ [])

  unfoldable pub internal_hash : Hash → Hash → Hash
  unfolding sha256_parts
  internal_hash left right = sha256_parts (tag_internal ∷ left ∷ right ∷ [])

  -- Two messages with one digest.
  abbrev pub Collision : Type 0
  Collision = (a b : Bytes) × (a ≢ b) × (sha256 a ≡ sha256 b)

  -- A digest has 32 bytes.
  abbrev pub IsDigest : Type 0
  IsDigest = (m : Bytes) → IsHash (sha256 m)

  same_message : (a b : Bytes) → sha256 a ≡ sha256 b → (a ≡ b) ⊎ Collision
  same_message a b e = elim (Bytes-discrete a b) [ yes p ↦ inl p | no p ↦ inr (a, b, p, e) ]

  two_parts :
      (tag l r l' r' : Bytes)
      → length l ≡ length l'
      → length r ≡ length r'
      → tag ++ (l ++ (r ++ [])) ≡ tag ++ (l' ++ (r' ++ []))
      → (l ≡ l') × (r ≡ r')
  two_parts tag l r l' r' hl hr e =
      let (p, q) = append_inj l l' hl ((append_inj tag tag refl e).1) in
      (p, (append_inj r r' hr q).0)

  pub leaf_hash-inj :
      (p v p' v' : Hash)
      → IsHash p
      → IsHash v
      → IsHash p'
      → IsHash v'
      → leaf_hash p v ≡ leaf_hash p' v'
      → ((p ≡ p') × (v ≡ v')) ⊎ Collision
  unfolding leaf_hash sha256_parts
  leaf_hash-inj p v p' v' hp hv hp' hv' e = elim (same_message _ _ e) [
    | inl q ↦ inl (two_parts tag_leaf p v p' v' (cc) (cc) q)
    | inr c ↦ inr c
  ]

  pub internal_hash-inj :
      (l r l' r' : Hash)
      → IsHash l
      → IsHash r
      → IsHash l'
      → IsHash r'
      → internal_hash l r ≡ internal_hash l' r'
      → ((l ≡ l') × (r ≡ r')) ⊎ Collision
  unfolding internal_hash sha256_parts
  internal_hash-inj l r l' r' hl hr hl' hr' e = elim (same_message _ _ e) [
    | inl q ↦ inl (two_parts tag_internal l r l' r' (cc) (cc) q)
    | inr c ↦ inr c
  ]

  -- The three kinds of message are told apart by their tags.
  pub leaf_hash-internal_hash : (p v l r : Hash) → leaf_hash p v ≡ internal_hash l r → Collision
  unfolding leaf_hash internal_hash sha256_parts
  leaf_hash-internal_hash p v l r e = elim (same_message _ _ e) [
    | inl q ↦ absurd (omega (arith, ap (λ m. byte_at m 18) q))
    | inr c ↦ c
  ]

  pub leaf_hash-placeholder : (p v : Hash) → leaf_hash p v ≡ placeholder → Collision
  unfolding leaf_hash placeholder sha256_parts
  leaf_hash-placeholder p v e = elim (same_message _ _ e) [
    | inl q ↦ absurd (omega (arith, ap (λ m. byte_at m 0) q))
    | inr c ↦ c
  ]

  pub internal_hash-placeholder : (l r : Hash) → internal_hash l r ≡ placeholder → Collision
  unfolding internal_hash placeholder sha256_parts
  internal_hash-placeholder l r e = elim (same_message _ _ e) [
    | inl q ↦ absurd (omega (arith, ap (λ m. byte_at m 0) q))
    | inr c ↦ c
  ]

  pub leaf_hash-IsHash : IsDigest → (p v : Hash) → IsHash (leaf_hash p v)
  unfolding leaf_hash sha256_parts
  leaf_hash-IsHash d p v = d _

  pub internal_hash-IsHash : IsDigest → (l r : Hash) → IsHash (internal_hash l r)
  unfolding internal_hash sha256_parts
  internal_hash-IsHash d l r = d _

  pub placeholder-IsHash : IsDigest → IsHash placeholder
  unfolding placeholder sha256_parts
  placeholder-IsHash d = d _
