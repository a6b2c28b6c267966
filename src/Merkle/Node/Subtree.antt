-- ===== src/Merkle/Node/Subtree.antt =====
-- The hash of an internal node, `subtree_hash` of crates/enclave-os-merkle/src/node.rs, is that of a
-- binary tree over its slots, and the slot that a path selects stands where the path's bits lead.
use privasys_enclave_os_mini.Common.{
  ℕ, zero, suc, ◌+◌, ◌^◌, ◌≤◌, ◌<◌, ◌≡◌, refl, ap, ◌∙◌, ◌⊎◌, inl, inr, Bool, true, false, none,
  some, List, [], ◌∷◌, arith, All, take, drop, get_elem?, Bool-cases,
}
use privasys_enclave_os_mini.Common.Bytes.{Bytes}
use privasys_enclave_os_mini.Merkle.Hash.{
  Hash, IsHash, IsDigest, Collision, internal_hash, internal_hash-IsHash, placeholder-IsHash,
}
use privasys_enclave_os_mini.Merkle.Node.{
  Child, Children, flatten, present_in, collapse, single_slot, subtree_hash,
}
use privasys_enclave_os_mini.Merkle.Node.Position.{Position, Position-bounds}
use privasys_enclave_os_mini.Merkle.Proof.{bit, combine}
use privasys_enclave_os_mini.Merkle.Proof.Sound.{Tree, IsTree, tree_hash, Below, combine-Below}

abbrev pub ChildIsHash : Child → Type 0
ChildIsHash c = IsHash c.hash

-- The hashes of the children that are present have 32 bytes.
abbrev pub AreHashes : Children → Type 0
AreHashes cs = All ChildIsHash (flatten cs)

abbrev Among : Child → List Child → Type 0
Among c [] = ⊥
Among c (x ∷ xs) = (c ≡ x) ⊎ Among c xs

slot_present :
    (c : Child) (cs : Children) (start width slot : ℕ)
    → get_elem? cs slot ≡ some (some c)
    → start ≤ slot
    → slot < start + width
    → Among c (present_in start width cs)
slot_present c [] start width slot e l u = absurd (cc e)
slot_present c (x ∷ cs) zero zero slot e l u = absurd (omega arith)
slot_present c (x ∷ cs) zero (suc width) zero e l u =
    let here : x ≡ some c = cc e in rw here (inl refl)
slot_present c (none ∷ cs) zero (suc width) (suc slot) e l u =
    slot_present c cs zero width slot e (omega arith) (omega arith)
slot_present c (some y ∷ cs) zero (suc width) (suc slot) e l u =
    inr (slot_present c cs zero width slot e (omega arith) (omega arith))
slot_present c (x ∷ cs) (suc start) width zero e l u = absurd (omega arith)
slot_present c (x ∷ cs) (suc start) width (suc slot) e l u =
    slot_present c cs start width slot e (omega arith) (omega arith)

abbrev AtMostOne : List Child → Type 0
AtMostOne (x ∷ y ∷ l) = ⊥
AtMostOne l = Unit {0}

present-AtMostOne : (cs : Children) (start : ℕ) → AtMostOne (present_in start 1 cs)
present-AtMostOne [] zero = tt
present-AtMostOne (none ∷ cs) zero = tt
present-AtMostOne (some c ∷ cs) zero = tt
present-AtMostOne [] (suc start) = tt
present-AtMostOne (x ∷ cs) (suc start) = present-AtMostOne cs start

AreHashes-take : (n : ℕ) (cs : Children) → AreHashes cs → AreHashes (take n cs)
AreHashes-take zero cs h = tt
AreHashes-take (suc n) [] h = tt
AreHashes-take (suc n) (none ∷ cs) h = AreHashes-take n cs h
AreHashes-take (suc n) (some c ∷ cs) (h, hs) = (h, AreHashes-take n cs hs)

AreHashes-drop : (n : ℕ) (cs : Children) → AreHashes cs → AreHashes (drop n cs)
AreHashes-drop zero cs h = h
AreHashes-drop (suc n) [] h = tt
AreHashes-drop (suc n) (none ∷ cs) h = AreHashes-drop n cs h
AreHashes-drop (suc n) (some c ∷ cs) (h, hs) = AreHashes-drop n cs hs

module _ (sha256 : Bytes → Hash) (digest : IsDigest sha256) where
  collapse-IsHash :
      (l : List Child) (split : Hash)
      → All ChildIsHash l
      → IsHash split
      → IsHash (collapse sha256 l split)
  unfolding collapse
  collapse-IsHash [] split h s = placeholder-IsHash sha256 digest
  collapse-IsHash (x ∷ []) split (h, _) s = elim (Bool-cases x.is_leaf) [
    | inl e ↦ rw e h
    | inr e ↦ rw e s
  ]
  collapse-IsHash (x ∷ y ∷ l) split h s = s

  single_slot-IsHash : (l : List Child) → All ChildIsHash l → IsHash (single_slot sha256 l)
  unfolding single_slot
  single_slot-IsHash [] h = placeholder-IsHash sha256 digest
  single_slot-IsHash (x ∷ l) (h, _) = h

  single_slot-hash :
      (c : Child) (l : List Child) → Among c l → AtMostOne l → c.hash ≡ single_slot sha256 l
  unfolding single_slot
  single_slot-hash c [] m f = absurd m
  single_slot-hash c (x ∷ []) (inl m) f = ap (λ y. y.hash) m
  single_slot-hash c (x ∷ []) (inr m) f = absurd m
  single_slot-hash c (x ∷ y ∷ l) m f = absurd f

  pub subtree_hash-IsHash :
      (cs : Children) (start levels : ℕ)
      → AreHashes cs
      → IsHash (subtree_hash sha256 cs start levels)
  unfolding subtree_hash
  subtree_hash-IsHash cs start zero h =
      single_slot-IsHash (present_in start 1 cs)
        (AreHashes-take 1 (drop start cs) (AreHashes-drop start cs h))
  subtree_hash-IsHash cs start (suc levels) h =
      collapse-IsHash (present_in start (2 ^ suc levels) cs) _
        (AreHashes-take (2 ^ suc levels) (drop start cs) (AreHashes-drop start cs h))
        (internal_hash-IsHash sha256 digest (subtree_hash sha256 cs start levels)
          (subtree_hash sha256 cs (start + 2 ^ levels) levels))

  -- The child stands under `t`, at the depth of its own node unless it is a leaf.
  abbrev pub AtSlot : Hash → Child → (d levels : ℕ) → Tree → Type 0
  AtSlot path c d levels t =
      (d' : ℕ) × Below sha256 digest path d t d' c.hash × (c.is_leaf ≡ false → d' ≡ d + levels)

  -- What a collapsed or a split range leaves to show.
  collapse-AtSlot :
      (path : Hash) (c : Child) (d levels : ℕ) (t : Tree) (l : List Child) (split : Hash)
      → Among c l
      → IsTree t
      → collapse sha256 l split ≡ tree_hash sha256 digest t
      → (split ≡ tree_hash sha256 digest t → AtSlot path c d (suc levels) t ⊎ Collision sha256)
      → AtSlot path c d (suc levels) t ⊎ Collision sha256
  unfolding collapse
  collapse-AtSlot path c d levels t [] split m ht e k = absurd m
  collapse-AtSlot path c d levels t (x ∷ y ∷ l) split m ht e k = k e
  collapse-AtSlot path c d levels t (x ∷ []) split (inr m) ht e k = absurd m
  collapse-AtSlot path c d levels t (x ∷ []) split (inl m) ht e k = elim (Bool-cases x.is_leaf) [
    | inr more ↦ k (rw more at e)
    | inl one ↦
        let same : x.hash ≡ tree_hash sha256 digest t = rw one at e in
        let is_one : c.is_leaf ≡ true = ap (λ y. y.is_leaf) m ∙ one in
        inl (d, (t, ht, ap (λ y. y.hash) m ∙ same, refl), λ no_leaf. cc (is_one, no_leaf))
  ]

  -- One level down: what holds for the half that the bit selects holds for the whole.
  deeper :
      (path : Hash) (c : Child) (d levels : ℕ) (t : Tree) (b : Bool) (s h : Hash)
      → bit path d ≡ b
      → IsHash s
      → IsHash h
      → IsTree t
      → combine sha256 b s h ≡ tree_hash sha256 digest t
      → ((t' : Tree)
          → IsTree t'
          → h ≡ tree_hash sha256 digest t'
          → AtSlot path c (suc d) levels t' ⊎ Collision sha256)
      → AtSlot path c d (suc levels) t ⊎ Collision sha256
  deeper path c d levels t b s h eb hs hh ht e k =
      elim (combine-Below sha256 digest path d b s h t eb hs hh ht e) [
        | inr found ↦ inr found
        | inl (t', ht', q, same) ↦ elim (k t' ht' q) [
          | inr found ↦ inr found
          | inl (d', (t'', ht'', q', same'), depth) ↦
              inl (d', (t'', ht'', q', same ∙ same'), λ no_leaf. omega (arith, depth no_leaf))
        ]
      ]

  -- From the hash of a range of slots to the child in the slot that the path's bits select.
  pub subtree_hash-AtSlot :
      (path : Hash) (cs : Children) (c : Child) (d levels start slot : ℕ) (t : Tree)
      → AreHashes cs
      → IsTree t
      → get_elem? cs slot ≡ some (some c)
      → Position path d levels start slot
      → subtree_hash sha256 cs start levels ≡ tree_hash sha256 digest t
      → AtSlot path c d levels t ⊎ Collision sha256
  unfolding subtree_hash combine
  subtree_hash-AtSlot path cs c d zero start slot t hs ht e pos h =
      let m = slot_present c cs start 1 slot e (omega arith) (omega arith) in
      inl (
        d,
        (
          t,
          ht,
          single_slot-hash c (present_in start 1 cs) m (present-AtMostOne cs start) ∙ h,
          refl,
        ),
        λ _. omega arith,
      )
  subtree_hash-AtSlot path cs c d (suc levels) start slot t hs ht e pos h =
      let bounds = Position-bounds path d (suc levels) start slot pos in
      let m = slot_present c cs start (2 ^ suc levels) slot e bounds.0 bounds.1 in
      let half : ℕ = start + 2 ^ levels in
      let left : Hash = subtree_hash sha256 cs start levels in
      let right : Hash = subtree_hash sha256 cs half levels in
      let left_size = subtree_hash-IsHash cs start levels hs in
      let right_size = subtree_hash-IsHash cs half levels hs in
      collapse-AtSlot path c d levels t (present_in start (2 ^ suc levels) cs)
        (internal_hash sha256 left right) m ht h
        λ split. elim (Bool-cases (bit path d)) [
          | inl one ↦
              deeper path c d levels t true left right one left_size right_size ht split λ t' ht' q.
                subtree_hash-AtSlot path cs c (suc d) levels half slot t' hs ht' e (rw one at pos) q
          | inr zero_bit ↦
              deeper path c d levels t false right left zero_bit right_size left_size ht split
                λ t' ht' q.
                  subtree_hash-AtSlot path cs c (suc d) levels start slot t' hs ht' e
                    (rw zero_bit at pos) q
        ]
