-- ===== src/Merkle/Node/Position.antt =====
-- A path's nibble and its bits select the same slot: crates/enclave-os-merkle/src/node.rs against
-- proof.rs. An internal node's hash is that of a binary tree over its slots.
use privasys_enclave_os_mini.Common.{
  ℕ, zero, suc, ◌+◌, ◌*◌, ◌/◌, ◌%◌, ◌^◌, ◌≤◌, ◌<◌, ◌≡◌, refl, inl, inr, Bool, true, not, [], ◌∷◌,
  arith, ◌==◌, ==_iff, if◌then◌else◌, All, all, bit_and, Bool-cases,
}
use native.Mathlib.Nat.{pow-suc}
use privasys_enclave_os_mini.Common.Words.{below, all-below}
use privasys_enclave_os_mini.Common.Bytes.{Bytes, IsByte, byte_at}
use privasys_enclave_os_mini.Merkle.Hash.{Hash}
use privasys_enclave_os_mini.Merkle.Node.{nibble}
use privasys_enclave_os_mini.Merkle.Proof.{bit}

-- From the slots `start` to `start + 2 ^ levels`, the path's bits from depth `d` on select `slot`.
abbrev pub Position : Hash → (d levels start slot : ℕ) → Type 0
Position path d zero start slot = start ≡ slot
Position path d (suc levels) start slot =
    Position path (suc d) levels (if bit path d then start + 2 ^ levels else start) slot

bit_of : ℕ → ℕ → Bool
bit_of byte j = not (bit_and byte (0x80 / 2 ^ j) == 0)

-- The slot that four bits select.
select : (b3 b2 b1 b0 : Bool) → ℕ
select b3 b2 b1 b0 =
    let a = if b3 then 0 + 8 else 0 in
    let b = if b2 then a + 4 else a in let c = if b1 then b + 2 else b in if b0 then c + 1 else c

upper_table :
    all (λ x. select (bit_of x 0) (bit_of x 1) (bit_of x 2) (bit_of x 3) == x / 16) (below 256)
    ≡ true
unfolding below select bit_of
upper_table = refl

lower_table :
    all
      (λ x. select (bit_of x 4) (bit_of x 5) (bit_of x 6) (bit_of x 7) == bit_and x 0x0F)
      (below 256)
    ≡ true
unfolding below select bit_of
lower_table = refl

pub byte_at-IsByte : (bs : Bytes) (i : ℕ) → All IsByte bs → byte_at bs i < 256
byte_at-IsByte [] i h = omega arith
byte_at-IsByte (b ∷ bs) zero (h, hs) = h
byte_at-IsByte (b ∷ bs) (suc i) (h, hs) = byte_at-IsByte bs i hs

bit-bit_of :
    (path : Hash) (d i j : ℕ) → d / 8 ≡ i → d % 8 ≡ j → bit path d ≡ bit_of (byte_at path i) j
unfolding bit bit_of
bit-bit_of path d i j hi hj = rw (hi, hj)

pub nibble-Position :
    (path : Hash) (k : ℕ) → All IsByte path → Position path (4 * k) 4 0 (nibble path k)
unfolding nibble select
nibble-Position path k octets =
    let x : ℕ = byte_at path (k / 2) in
    let small : x < 256 = byte_at-IsByte path (k / 2) octets in
    elim (Bool-cases (k % 2 == 0)) [
      | inl even ↦
          let b0 = bit-bit_of path (4 * k) (k / 2) 0 (ground arith) (ground arith) in
          let b1 = bit-bit_of path (suc (4 * k)) (k / 2) 1 (ground arith) (ground arith) in
          let b2 = bit-bit_of path (suc (suc (4 * k))) (k / 2) 2 (ground arith) (ground arith) in
          let b3 =
            bit-bit_of path (suc (suc (suc (4 * k)))) (k / 2) 3 (ground arith) (ground arith) in
          rw (even, b0, b1, b2, b3) ((==_iff _ _).0 (all-below _ small upper_table))
      | inr odd ↦
          let b0 = bit-bit_of path (4 * k) (k / 2) 4 (ground arith) (ground arith) in
          let b1 = bit-bit_of path (suc (4 * k)) (k / 2) 5 (ground arith) (ground arith) in
          let b2 = bit-bit_of path (suc (suc (4 * k))) (k / 2) 6 (ground arith) (ground arith) in
          let b3 =
            bit-bit_of path (suc (suc (suc (4 * k)))) (k / 2) 7 (ground arith) (ground arith) in
          rw (odd, b0, b1, b2, b3) ((==_iff _ _).0 (all-below _ small lower_table))
    ]

pub Position-bounds :
    (path : Hash) (d levels start slot : ℕ)
    → Position path d levels start slot
    → (start ≤ slot) × (slot < start + 2 ^ levels)
Position-bounds path d zero start slot h = omega arith
Position-bounds path d (suc levels) start slot h = elim (Bool-cases (bit path d)) [
  | inl right ↦
      let r = Position-bounds path (suc d) levels (start + 2 ^ levels) slot (rw right at h) in
      omega (arith, pow-suc 2 levels, r)
  | inr left ↦
      let r = Position-bounds path (suc d) levels start slot (rw left at h) in
      omega (arith, pow-suc 2 levels, r)
]
