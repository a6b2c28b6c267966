-- ===== src/Merkle/Proof/Sound.antt =====
-- A proof that crates/enclave-os-merkle/src/proof.rs accepts states what the tree under the root
-- holds, unless two messages with one SHA-256 digest are at hand.
use privasys_enclave_os_mini.Common.{
  ℕ, suc, ◌≡◌, refl, sym, ap, ◌∙◌, ◌⊎◌, inl, inr, Bool, true, false, Option, none, some, List, [],
  ◌∷◌, ◌++◌, reverse, length, if◌then◌else◌, ltb, All, Bool-cases,
}
use mathlib.Core.List.{reverse-append}
use mathlib.Core.Path.{subst}
use mathlib.Core.Logic.{ite}
use privasys_enclave_os_mini.Common.Bytes.{Bytes}
use privasys_enclave_os_mini.Common.Results.{Result, ok, err, Result-outcome}
use privasys_enclave_os_mini.Merkle.Error.{MerkleError, invalid}
use privasys_enclave_os_mini.Merkle.Hash.{
  Hash, IsHash, IsDigest, Collision, Bytes-discrete, leaf_hash, internal_hash, placeholder,
  leaf_hash-inj, internal_hash-inj, leaf_hash-internal_hash, leaf_hash-placeholder,
  internal_hash-placeholder, leaf_hash-IsHash, internal_hash-IsHash, placeholder-IsHash,
}
use privasys_enclave_os_mini.Merkle.Proof.{
  Proof, Verified, present, absent, bit, combine, statement, verify, recompute, max_depth,
  common_prefix_bits,
}
use privasys_enclave_os_mini.Merkle.Proof.Fold.{ascend, recompute-ascend}

-- What a root commits to: a binary tree of leaves, each a path and a value's hash.
pub data Tree : Type 0 where
  empty : Tree
  leaf : Hash → Hash → Tree
  node : Tree → Tree → Tree

-- Every path and value hash in the tree has 32 bytes.
abbrev pub IsTree : Tree → Type 0
IsTree empty = Unit {0}
IsTree (leaf path vh) = IsHash path × IsHash vh
IsTree (node left right) = IsTree left × IsTree right

-- What the tree, standing at depth `d`, holds for the path.
abbrev pub lookup : (d : ℕ) → Tree → Hash → Verified
lookup d empty path = absent
lookup d (leaf p vh) path = ite (Bytes-discrete p path) (present vh) absent
lookup d (node left right) path =
    if bit path d then lookup (suc d) right path else lookup (suc d) left path

-- The sizes that the source's types fix: each sibling, and the leaf's two hashes.
abbrev pub LeafIsHash : Option (Hash × Hash) → Type 0
LeafIsHash none = Unit {0}
LeafIsHash (some (path, vh)) = IsHash path × IsHash vh

abbrev pub IsProof : Proof → Type 0
IsProof proof = LeafIsHash proof.leaf × All IsHash proof.siblings

module _ (sha256 : Bytes → Hash) (digest : IsDigest sha256) where
  abbrev pub tree_hash : Tree → Hash
  tree_hash empty = placeholder sha256
  tree_hash (leaf path vh) = leaf_hash sha256 path vh
  tree_hash (node left right) = internal_hash sha256 (tree_hash left) (tree_hash right)

  pub tree_hash-IsHash : (t : Tree) → IsHash (tree_hash t)
  tree_hash-IsHash empty = placeholder-IsHash sha256 digest
  tree_hash-IsHash (leaf path vh) = leaf_hash-IsHash sha256 digest path vh
  tree_hash-IsHash (node left right) =
      internal_hash-IsHash sha256 digest (tree_hash left) (tree_hash right)

  -- Where a hash on the path stands: a subtree with that hash, that holds what `t` holds.
  abbrev pub Below : Hash → (d : ℕ) → Tree → (d' : ℕ) → Hash → Type 0
  Below path d t d' h =
      (t' : Tree) × IsTree t' × (h ≡ tree_hash t') × (lookup d t path ≡ lookup d' t' path)

  pub combine-Below :
      (path : Hash) (d : ℕ) (b : Bool) (s h : Hash) (t : Tree)
      → bit path d ≡ b
      → IsHash s
      → IsHash h
      → IsTree t
      → combine sha256 b s h ≡ tree_hash t
      → Below path d t (suc d) h ⊎ Collision sha256
  unfolding combine
  combine-Below path d true s h empty eb hs hh ht e = inr (internal_hash-placeholder sha256 s h e)
  combine-Below path d false s h empty eb hs hh ht e = inr (internal_hash-placeholder sha256 h s e)
  combine-Below path d true s h (leaf p v) eb hs hh ht e =
      inr (leaf_hash-internal_hash sha256 p v s h (sym e))
  combine-Below path d false s h (leaf p v) eb hs hh ht e =
      inr (leaf_hash-internal_hash sha256 p v h s (sym e))
  combine-Below path d true s h (node l r) eb hs hh (hl, hr) e =
      elim (internal_hash-inj sha256 s h (tree_hash l) (tree_hash r) hs hh (tree_hash-IsHash l)
        (tree_hash-IsHash r) e) [ inl (_, q) ↦ inl (r, hr, q, rw eb) | inr c ↦ inr c ]
  combine-Below path d false s h (node l r) eb hs hh (hl, hr) e =
      elim (internal_hash-inj sha256 h s (tree_hash l) (tree_hash r) hh hs (tree_hash-IsHash l)
        (tree_hash-IsHash r) e) [ inl (q, _) ↦ inl (l, hl, q, rw eb) | inr c ↦ inr c ]

  -- What the lowest hash of a proof says.
  abbrev pub base : Option (Hash × Hash) → Hash
  base none = placeholder sha256
  base (some (path, vh)) = leaf_hash sha256 path vh

  abbrev pub stated : Hash → Option (Hash × Hash) → Verified
  stated path none = absent
  stated path (some (p, vh)) = ite (Bytes-discrete p path) (present vh) absent

  pub leaf-lookup :
      (path : Hash) (d : ℕ) (p v : Hash) (t : Tree)
      → IsHash p
      → IsHash v
      → IsTree t
      → leaf_hash sha256 p v ≡ tree_hash t
      → (stated path (some (p, v)) ≡ lookup d t path) ⊎ Collision sha256
  leaf-lookup path d p v empty hp hv ht e = inr (leaf_hash-placeholder sha256 p v e)
  leaf-lookup path d p v (node l r) hp hv ht e =
      inr (leaf_hash-internal_hash sha256 p v (tree_hash l) (tree_hash r) e)
  leaf-lookup path d p v (leaf p' v') hp hv (hp', hv') e =
      elim (leaf_hash-inj sha256 p v p' v' hp hv hp' hv' e) [
        | inl (a, b) ↦ inl (λ i. ite (Bytes-discrete (a i) path) (present (b i)) absent)
        | inr c ↦ inr c
      ]

  pub placeholder-lookup :
      (path : Hash) (d : ℕ) (t : Tree)
      → placeholder sha256 ≡ tree_hash t
      → (absent ≡ lookup d t path) ⊎ Collision sha256
  placeholder-lookup path d empty e = inl refl
  placeholder-lookup path d (leaf p v) e = inr (leaf_hash-placeholder sha256 p v (sym e))
  placeholder-lookup path d (node l r) e =
      inr (internal_hash-placeholder sha256 (tree_hash l) (tree_hash r) (sym e))

  base-lookup :
      (path : Hash) (d : ℕ) (l : Option (Hash × Hash)) (t : Tree)
      → LeafIsHash l
      → IsTree t
      → base l ≡ tree_hash t
      → (stated path l ≡ lookup d t path) ⊎ Collision sha256
  base-lookup path d none t hl ht e = placeholder-lookup path d t e
  base-lookup path d (some (p, v)) t (hp, hv) ht e = leaf-lookup path d p v t hp hv ht e

  base-IsHash : (l : Option (Hash × Hash)) → IsHash (base l)
  base-IsHash none = placeholder-IsHash sha256 digest
  base-IsHash (some (p, v)) = leaf_hash-IsHash sha256 digest p v

  combine-IsHash : (b : Bool) (s h : Hash) → IsHash (combine sha256 b s h)
  unfolding combine
  combine-IsHash true s h = internal_hash-IsHash sha256 digest s h
  combine-IsHash false s h = internal_hash-IsHash sha256 digest h s

  ascend-IsHash :
      (path : Hash) (d : ℕ) (ss : List Hash) (acc : Hash)
      → IsHash acc
      → IsHash (ascend sha256 path d ss acc)
  ascend-IsHash path d [] acc h = h
  ascend-IsHash path d (s ∷ ss) acc h =
      combine-IsHash (bit path d) s (ascend sha256 path (suc d) ss acc)

  ascend-lookup :
      (path : Hash) (d : ℕ) (ss : List Hash) (l : Option (Hash × Hash)) (t : Tree)
      → All IsHash ss
      → LeafIsHash l
      → IsTree t
      → ascend sha256 path d ss (base l) ≡ tree_hash t
      → (stated path l ≡ lookup d t path) ⊎ Collision sha256
  ascend-lookup path d [] l t hs hl ht e = base-lookup path d l t hl ht e
  ascend-lookup path d (s ∷ ss) l t (h, hs) hl ht e =
      elim (combine-Below path d (bit path d) s (ascend sha256 path (suc d) ss (base l)) t refl h
        (ascend-IsHash path (suc d) ss (base l) (base-IsHash l)) ht e) [
          | inr c ↦ inr c
          | inl (t', ht', q, same) ↦ elim (ascend-lookup path (suc d) ss l t' hs hl ht' q) [
            | inl found ↦ inl (found ∙ sym same)
            | inr c ↦ inr c
          ]
        ]

  pub statement-base :
      (path : Hash) (n : ℕ) (l : Option (Hash × Hash)) (start : Hash × Verified)
      → statement sha256 path n l ≡ ok start
      → (start.0 ≡ base l) × (start.1 ≡ stated path l)
  unfolding statement
  statement-base path n none start e = (cc e, cc e)
  statement-base path n (some (p, v)) start e = by_decision (Bytes-discrete p path) e
    where
      by_decision :
          (d : Dec (p ≡ path))
          → ite d (ok (leaf_hash sha256 p v, present v)) (
              if ltb (common_prefix_bits p path) n
              then err invalid
              else ok (leaf_hash sha256 p v, absent))
            ≡ ok start
          → (start.0 ≡ leaf_hash sha256 p v) × (start.1 ≡ ite d (present v) absent)
      by_decision (yes q) r = (cc r, cc r)
      by_decision (no q) r = elim (Bool-cases (ltb (common_prefix_bits p path) n)) [
        | inl short ↦ absurd (cc (rw short at r))
        | inr covers ↦ let r' = rw covers at r in (cc r', cc r')
      ]

  -- What an accepted proof consists of.
  verify-ok :
      (root path : Hash) (proof : Proof) (s : Verified)
      → verify sha256 root path proof ≡ ok s
      → (s ≡ stated path proof.leaf)
        × (ascend sha256 path 0 (reverse proof.siblings) (base proof.leaf) ≡ root)
  unfolding verify
  verify-ok root path proof s e = elim (Bool-cases (ltb max_depth (length proof.siblings))) [
    | inl deep ↦ absurd (cc (rw deep at e))
    | inr fits ↦ elim (Result-outcome (statement sha256 path (length proof.siblings) proof.leaf)) [
      | inr (x, q) ↦ absurd (cc (rw (fits, q) at e))
      | inl (start, q) ↦
          let (acc_eq, stated_eq) =
            statement-base path (length proof.siblings) proof.leaf start q in
          let folded = recompute-ascend sha256 path proof.siblings start.0 in
          let (root_eq, s_eq) =
            accepted (recompute sha256 path (length proof.siblings) 0 proof.siblings start.0)
              start.1 (Bytes-discrete _ root) (rw (fits, q) at e) in
          (
            sym s_eq ∙ stated_eq,
            ap (ascend sha256 path 0 (reverse proof.siblings)) (sym acc_eq) ∙ sym folded ∙ root_eq,
          )
    ]
  ]
    where
      accepted :
          (acc : Hash) (v : Verified) (d : Dec (acc ≡ root))
          → ◌≡◌ {A = Result MerkleError Verified} (ite d (ok v) (err invalid)) (ok s)
          → (acc ≡ root) × (v ≡ s)
      accepted acc v (yes q) r = (q, cc r)
      accepted acc v (no q) r = absurd (cc r)

  reverse-IsHash : (hs : List Hash) → All IsHash hs → All IsHash (reverse hs)
  reverse-IsHash [] h = tt
  reverse-IsHash (x ∷ xs) (h, hs) =
      subst (All IsHash) (sym (reverse-append (x ∷ []) xs))
        (snoc (reverse xs) (reverse-IsHash xs hs))
    where
      snoc : (ys : List Hash) → All IsHash ys → All IsHash (ys ++ x ∷ [])
      snoc [] k = (h, tt)
      snoc (y ∷ ys) (k, ks) = (k, snoc ys ks)

  -- Where digests, the proof's hashes and the tree's entries have 32 bytes: an accepted proof
  -- against the root of a tree states what the tree holds for the path, the value's hash or its
  -- absence, or else two different messages with one SHA-256 digest exist.
  pub verify_sound :
      (t : Tree) (path : Hash) (proof : Proof) (s : Verified)
      → IsTree t
      → IsProof proof
      → verify sha256 (tree_hash t) path proof ≡ ok s
      → (s ≡ lookup 0 t path) ⊎ Collision sha256
  verify_sound t path proof s ht (hl, hs) e =
      let (s_eq, root_eq) = verify-ok (tree_hash t) path proof s e in
      elim (ascend-lookup path 0 (reverse proof.siblings) proof.leaf t
        (reverse-IsHash proof.siblings hs) hl ht root_eq) [
          | inl found ↦ inl (s_eq ∙ found)
          | inr c ↦ inr c
        ]
