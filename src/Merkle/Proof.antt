-- ===== src/Merkle/Proof.antt =====
-- Inclusion and absence proofs: crates/enclave-os-merkle/src/proof.rs.
pub mod Fold
pub mod Sound
pub mod Codec
pub mod Strict
use Prim.Native.Nat.{bit_xor}
use privasys_enclave_os_mini.Common.{
  ℕ, zero, suc, ◌+◌, ◌-◌, ◌*◌, ◌/◌, ◌%◌, ◌^◌, Bool, true, false, not, ◌||◌, Option, none, some,
  List, [], ◌∷◌, ◌++◌, bit_and, ltb, leb, ◌==◌, if◌then◌else◌, length,
}
use privasys_enclave_os_mini.Common.Bytes.{Bytes, byte_at, slice, to_le_bytes, from_le_bytes}
use privasys_enclave_os_mini.Common.Results.{Result, ok, err, ◌>>=◌, ◌>>◌, refuse_if}
use privasys_enclave_os_mini.Merkle.Hash.{
  Hash, hash_size, Bytes-discrete, concat, leaf_hash, internal_hash, placeholder,
}
use privasys_enclave_os_mini.Merkle.Error.{MerkleError, invalid}
use mathlib.Core.Logic.{ite}

abbrev pub max_depth : ℕ
max_depth = 256

-- `siblings` run from the bottom to the top; without a leaf the path's position is empty.
pub record Proof : Type 0 where
  pub leaf : Option (Hash × Hash)
  pub siblings : List Hash

pub data Verified : Type 0 where
  present : Hash → Verified
  absent : Verified

unfoldable pub bit : Hash → ℕ → Bool
bit path i = not (bit_and (byte_at path (i / 8)) (0x80 / 2 ^ (i % 8)) == 0)

-- `leading_zeros` of a `width`-bit number
unfoldable pub leading_zeros : (width : ℕ) → ℕ → ℕ
leading_zeros zero x = 0
leading_zeros (suc width) x =
    let rest = leading_zeros width x in if leb (2 ^ width) x then 0 else suc rest

-- The loop from byte `i` on.
unfoldable pub common_prefix_from : ℕ → Hash → Hash → ℕ
common_prefix_from i (a ∷ as') (b ∷ bs) =
    let rest = common_prefix_from (suc i) as' bs in
    let x = bit_xor a b in if x == 0 then rest else i * 8 + leading_zeros 8 x
common_prefix_from i _ _ = max_depth

unfoldable pub common_prefix_bits : Hash → Hash → ℕ
common_prefix_bits a b = common_prefix_from 0 a b

module _ (sha256 : Bytes → Hash) where
  -- One step of the loop, at the bit that `depth` selects.
  unfoldable pub combine : Bool → Hash → Hash → Hash
  combine true sibling acc = internal_hash sha256 sibling acc
  combine false sibling acc = internal_hash sha256 acc sibling

  -- The loop over the siblings from the `i`-th of `n` on.
  unfoldable pub recompute : Hash → (n i : ℕ) → List Hash → Hash → Hash
  recompute path n i [] acc = acc
  recompute path n i (sibling ∷ siblings) acc =
      let depth = n - 1 - i in
      recompute path n (suc i) siblings (combine (bit path depth) sibling acc)

  -- The first `match`: the lowest hash, and what the proof states if it is right.
  unfoldable pub statement : Hash → ℕ → Option (Hash × Hash) → Result MerkleError (Hash × Verified)
  statement path n none = ok (placeholder sha256, absent)
  statement path n (some (leaf_path, vh)) =
      ite (Bytes-discrete leaf_path path) (ok (leaf_hash sha256 leaf_path vh, present vh)) (
        if ltb (common_prefix_bits leaf_path path) n
        then err invalid
        else ok (leaf_hash sha256 leaf_path vh, absent))

  unfoldable pub verify : Hash → Hash → Proof → Result MerkleError Verified
  verify root path proof = do
    let n = length proof.siblings
    refuse_if (ltb max_depth n) invalid
    start ← statement path n proof.leaf
    ite (Bytes-discrete (recompute path n 0 proof.siblings start.0) root) (ok start.1) (err invalid)

unfoldable pub encode_leaf : Option (Hash × Hash) → Bytes
encode_leaf none = 0 ∷ []
encode_leaf (some (path, vh)) = 1 ∷ (path ++ vh)

unfoldable pub encode : Proof → Bytes
encode proof =
    encode_leaf proof.leaf ++ (to_le_bytes 2 (length proof.siblings) ++ concat proof.siblings)

-- The first `match` of `decode`, by the first byte: the leaf and the offset behind it.
unfoldable pub decode_leaf : Bytes → Result MerkleError (Option (Hash × Hash) × ℕ)
decode_leaf [] = err invalid
decode_leaf (first ∷ rest) =
    let bytes = first ∷ rest in
    if first == 0
    then ok (none, 1)
    else if first == 1
    then refuse_if (ltb (length bytes) (1 + 2 * hash_size)) invalid
      >> ok (
        some (slice 1 (1 + hash_size) bytes, slice (1 + hash_size) (1 + 2 * hash_size) bytes),
        1 + 2 * hash_size,
      )
    else err invalid

unfoldable pub read_siblings : (count off : ℕ) → Bytes → List Hash
read_siblings zero off bytes = []
read_siblings (suc count) off bytes =
    slice off (off + hash_size) bytes ∷ read_siblings count (off + hash_size) bytes

unfoldable pub decode : Bytes → Result MerkleError Proof
decode bytes = do
  front ← decode_leaf bytes
  let off = front.1
  refuse_if (ltb (length bytes) (off + 2)) invalid
  let count = from_le_bytes (slice off (off + 2) bytes)
  refuse_if (ltb max_depth count || not (length bytes == off + 2 + count * hash_size)) invalid
  ok (record { leaf = front.0; siblings = read_siblings count (off + 2) bytes })
