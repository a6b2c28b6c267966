-- ===== src/Merkle/Store/Prove/Verifies.antt =====
-- A proof that `prove` of crates/enclave-os-merkle/src/tree.rs makes recomputes to the root.
use privasys_enclave_os_mini.Common.{
  ℕ, zero, suc, ◌+◌, ◌^◌, ◌≤◌, ◌≡◌, refl, sym, ap, ◌∙◌, inl, inr, Bool, true, false, none, some,
  List, [], ◌∷◌, ◌++◌, arith, ltb, length, take, drop, Bool-cases,
}
use mathlib.Core.List.{append_assoc, append-nil}
use privasys_enclave_os_mini.Common.Bytes.{Bytes}
use privasys_enclave_os_mini.Merkle.Hash.{Hash, internal_hash, placeholder}
use privasys_enclave_os_mini.Merkle.Proof.{bit, combine}
use privasys_enclave_os_mini.Merkle.Proof.Fold.{ascend}
use privasys_enclave_os_mini.Merkle.Node.{
  Child, Children, flatten, collapse, single_slot, subtree_hash,
}
use privasys_enclave_os_mini.Merkle.Node.Position.{Position, Position-bounds}
use privasys_enclave_os_mini.Merkle.Store.Prove.{
  Range, empty_range, leaf_range, inner_range, with_slots, present_slots, end_of_slot, end_of_range,
  search_slot,
}

seconds : List (ℕ × Child) → List Child
seconds [] = []
seconds ((i, c) ∷ l) = c ∷ seconds l

flatten-seconds : (i : ℕ) (cs : Children) → flatten cs ≡ seconds (with_slots i cs)
unfolding seconds
flatten-seconds i [] = refl
flatten-seconds i (none ∷ cs) = flatten-seconds (suc i) cs
flatten-seconds i (some c ∷ cs) = ap (λ l. c ∷ l) (flatten-seconds (suc i) cs)

module _ (sha256 : Bytes → Hash) where
  -- The hash at which the descent ends.
  abbrev pub end_hash : Range → Hash
  end_hash empty_range = placeholder sha256
  end_hash (leaf_range i c) = c.hash
  end_hash (inner_range c) = c.hash

  abbrev pub Depth : Range → ℕ → ℕ → Type 0
  Depth (inner_range c) n levels = n ≡ levels
  Depth other n levels = n ≤ levels

  end_of_slot-hash :
      (l : List (ℕ × Child))
      → (single_slot sha256 (seconds l) ≡ end_hash (end_of_slot l)) × Depth (end_of_slot l) 0 0
  unfolding seconds single_slot end_of_slot
  end_of_slot-hash [] = (refl, omega arith)
  end_of_slot-hash ((i, c) ∷ l) = elim (Bool-cases c.is_leaf) [
    | inl one ↦ rw one (refl, omega arith)
    | inr more ↦ rw more (refl, refl)
  ]

  -- What a descent from depth `d` has collected, and that it leads back to the hash it started from.
  abbrev pub Collected : Hash → (d levels : ℕ) → List Hash → Hash → Range × List Hash → Type 0
  Collected path d levels siblings h (range, out) =
      (more : List Hash) × (out ≡ siblings ++ more)
      × (ascend sha256 path d more (end_hash range) ≡ h)
      × Depth range (length more) levels

  Depth-step : (r : Range) (n levels : ℕ) → Depth r n levels → Depth r (suc n) (suc levels)
  Depth-step empty_range n levels h = omega arith
  Depth-step (leaf_range i c) n levels h = omega arith
  Depth-step (inner_range c) n levels h = ap suc h

  -- One halving: the sibling that was pushed stands on top of what the half collects.
  pushed :
      (path : Hash) (d levels : ℕ) (siblings : List Hash) (sibling h : Hash) (b : Bool)
      (found : Range × List Hash)
      → bit path d ≡ b
      → Collected path (suc d) levels (siblings ++ sibling ∷ []) h found
      → Collected path d (suc levels) siblings (combine sha256 b sibling h) found
  pushed path d levels siblings sibling h b (range, out) eb (more, out_eq, same, depth) = (
    sibling ∷ more,
    out_eq ∙ append_assoc siblings (sibling ∷ []) more,
    rw (eb, same) refl,
    Depth-step range (length more) levels depth,
  )

  end_of_range-Collected :
      (path : Hash) (d levels : ℕ) (l : List (ℕ × Child)) (siblings : List Hash) (split : Hash)
      (halved : Range × List Hash)
      → Collected path d (suc levels) siblings split halved
      → Collected path d
          (suc levels)
          siblings
          (collapse sha256 (seconds l) split)
          (end_of_range l siblings halved)
  unfolding seconds collapse end_of_range
  end_of_range-Collected path d levels [] siblings split halved k =
      ([], sym (append-nil siblings), refl, omega arith)
  end_of_range-Collected path d levels (a ∷ b ∷ l) siblings split halved k = k
  end_of_range-Collected path d levels ((i, c) ∷ []) siblings split halved k =
      elim (Bool-cases c.is_leaf) [
        | inl one ↦ rw one ([], sym (append-nil siblings), refl, omega arith)
        | inr more ↦ rw more k
      ]

  pub search_slot-Collected :
      (path : Hash) (cs : Children) (d slot start levels : ℕ) (siblings : List Hash)
      → Position path d levels start slot
      → Collected path d levels siblings
          (subtree_hash sha256 cs start levels)
          (search_slot sha256 cs slot start levels siblings)
  unfolding search_slot subtree_hash combine
  search_slot-Collected path cs d slot start zero siblings pos =
      let (same, depth) = end_of_slot-hash (present_slots start 1 cs) in
      (
        [],
        sym (append-nil siblings),
        sym (ap (single_slot sha256) (flatten-seconds start (take 1 (drop start cs))) ∙ same),
        depth,
      )
  search_slot-Collected path cs d slot start (suc levels) siblings pos =
      let half : ℕ = start + 2 ^ levels in
      let left : Hash = subtree_hash sha256 cs start levels in
      let right : Hash = subtree_hash sha256 cs half levels in
      let slots = present_slots start (2 ^ suc levels) cs in
      let flat = flatten-seconds start (take (2 ^ suc levels) (drop start cs)) in
      rw flat (elim (Bool-cases (bit path d)) [
        | inl one ↦
            let pos' = rw one at pos in
            let high : ltb slot half ≡ false =
              let bounds = Position-bounds path (suc d) levels half slot pos' in ground arith in
            rw high (
              end_of_range-Collected path d levels slots siblings (internal_hash sha256 left right)
                (search_slot sha256 cs slot half levels (siblings ++ left ∷ []))
                (pushed path d levels siblings left right true
                  (search_slot sha256 cs slot half levels (siblings ++ left ∷ [])) one
                  (search_slot-Collected path cs (suc d) slot half levels (siblings ++ left ∷ [])
                    pos')))
        | inr zero_bit ↦
            let pos' = rw zero_bit at pos in
            let low : ltb slot half ≡ true =
              let bounds = Position-bounds path (suc d) levels start slot pos' in ground arith in
            rw low (
              end_of_range-Collected path d levels slots siblings (internal_hash sha256 left right)
                (search_slot sha256 cs slot start levels (siblings ++ right ∷ []))
                (pushed path d levels siblings right left false
                  (search_slot sha256 cs slot start levels (siblings ++ right ∷ [])) zero_bit
                  (search_slot-Collected path cs (suc d) slot start levels (siblings ++ right ∷ [])
                    pos')))
      ])
