-- ===== src/Merkle/Node.antt =====
-- Nodes, their keys, codec and hash: crates/enclave-os-merkle/src/node.rs.
pub mod Codec
pub mod Position
pub mod Subtree
pub mod Decoded
use Prim.Native.Nat.{bit_or}
use privasys_enclave_os_mini.Common.{
  ℕ, zero, suc, ◌+◌, ◌-◌, ◌*◌, ◌/◌, ◌%◌, ◌^◌, ◌≡◌, Bool, true, false, not, ◌||◌, Option, none, some,
  List, [], ◌∷◌, ◌++◌, ltb, ◌==◌, if◌then◌else◌, length, take, drop, replicate, bit_and,
}
use privasys_enclave_os_mini.Common.Bytes.{
  Bytes, byte_at, slice, to_le_bytes, from_le_bytes, to_be_bytes, from_be_bytes,
}
use privasys_enclave_os_mini.Common.Results.{Result, ok, err, ◌>>=◌, ◌>>◌, refuse_if}
use privasys_enclave_os_mini.Merkle.Error.{MerkleError, corrupted}
use privasys_enclave_os_mini.Merkle.Hash.{
  Hash, hash_size, IsHash, leaf_hash, internal_hash, placeholder,
}

-- Path length in nibbles.
abbrev pub nibbles : ℕ
nibbles = 64

unfoldable pub nibble : Hash → ℕ → ℕ
nibble path i =
    let byte = byte_at path (i / 2) in if i % 2 == 0 then byte / 16 else bit_and byte 0x0F

pub record NodeKey : Type 0 where
  pub version : ℕ
  pub prefix : List ℕ

abbrev pub root_key : ℕ → NodeKey
root_key version = record { version = version; prefix = [] }

-- The `while` loop: two nibbles to a byte, the last one alone in the upper half.
unfoldable pub pack_nibbles : List ℕ → Bytes
pack_nibbles [] = []
pack_nibbles (hi ∷ []) = bit_or (hi * 16 % 256) 0 ∷ []
pack_nibbles (hi ∷ lo ∷ rest) = bit_or (hi * 16 % 256) lo ∷ pack_nibbles rest

unfoldable pub encode_key : NodeKey → Bytes
encode_key nk = to_be_bytes 8 nk.version ++ (length nk.prefix % 256 ∷ pack_nibbles nk.prefix)

pub record Child : Type 0 where
  pub version : ℕ
  pub hash : Hash
  pub is_leaf : Bool

-- The 16 slots of an `InternalNode`.
abbrev pub Children : Type 0
Children = List (Option Child)

pub record LeafNode : Type 0 where
  pub path : Hash
  pub vh : Hash
  pub value_version : ℕ

pub data Node : Type 0 where
  internal : Children → Node
  leaf : LeafNode → Node

unfoldable pub is_leaf : Node → Bool
is_leaf (internal children) = false
is_leaf (leaf l) = true

-- Bit `i` is set where slot `i` is present; the slots from the first on.
unfoldable pub bitmap : Children → ℕ
bitmap [] = 0
bitmap (none ∷ children) = 2 * bitmap children
bitmap (some c ∷ children) = 1 + 2 * bitmap children

unfoldable pub encode_child : Child → Bytes
encode_child c = to_be_bytes 8 c.version ++ (c.hash ++ ((if c.is_leaf then 1 else 0) ∷ []))

unfoldable pub encode_children : Children → Bytes
encode_children [] = []
encode_children (none ∷ children) = encode_children children
encode_children (some c ∷ children) = encode_child c ++ encode_children children

unfoldable pub encode : Node → Bytes
encode (leaf l) = 2 ∷ (l.path ++ (l.vh ++ to_be_bytes 8 l.value_version))
encode (internal children) = 1 ∷ (to_le_bytes 2 (bitmap children) ++ encode_children children)

-- `count_ones` of a `width`-bit number
unfoldable pub count_ones : (width : ℕ) → ℕ → ℕ
count_ones zero x = 0
count_ones (suc width) x = x % 2 + count_ones width (x / 2)

-- 8 + 32 + 1
abbrev pub entry : ℕ
entry = 8 + hash_size + 1

unfoldable pub decode_flag : ℕ → Result MerkleError Bool
decode_flag byte = if byte == 0 then ok false else if byte == 1 then ok true else err corrupted

unfoldable pub decode_child : (off : ℕ) → Bytes → Result MerkleError Child
decode_child off bytes = do
  is_leaf ← decode_flag (byte_at bytes (off + 8 + hash_size))
  ok (record {
    version = from_be_bytes (slice off (off + 8) bytes);
    hash = slice (off + 8) (off + 8 + hash_size) bytes;
    is_leaf = is_leaf;
  })

-- The loop over the last `slots` slots; the lowest bit of `bits` tells whether the next is present.
unfoldable pub decode_children : (slots bits off : ℕ) → Bytes → Result MerkleError Children
decode_children zero bits off bytes = ok []
decode_children (suc slots) bits off bytes =
    let absent = decode_children slots (bits / 2) off bytes >>= λ rest. ok (none ∷ rest) in
    let present = decode_child off bytes >>= λ c.
    decode_children slots (bits / 2) (off + entry) bytes >>= λ rest. ok (some c ∷ rest) in
    if bits % 2 == 0 then absent else present

unfoldable pub decode_leaf : Bytes → Result MerkleError Node
decode_leaf bytes =
    refuse_if (not (length bytes == 1 + 2 * hash_size + 8)) corrupted
    >> ok (
        leaf (record {
          path = slice 1 (1 + hash_size) bytes;
          vh = slice (1 + hash_size) (1 + 2 * hash_size) bytes;
          value_version = from_be_bytes (drop (1 + 2 * hash_size) bytes);
        }))

unfoldable pub decode_internal : Bytes → Result MerkleError Node
decode_internal bytes = do
  refuse_if (ltb (length bytes) 3) corrupted
  let bits = from_le_bytes (slice 1 3 bytes)
  let count = count_ones 16 bits
  refuse_if (count == 0) corrupted
  refuse_if (not (length bytes == 3 + count * entry)) corrupted
  children ← decode_children 16 bits 3 bytes
  ok (internal children)

unfoldable pub decode : Bytes → Result MerkleError Node
decode [] = err corrupted
decode (tag ∷ rest) =
    if tag == 2
    then decode_leaf (tag ∷ rest)
    else if tag == 1
    then decode_internal (tag ∷ rest)
    else err corrupted

-- The children that are present.
abbrev pub flatten : Children → List Child
flatten [] = []
flatten (none ∷ children) = flatten children
flatten (some c ∷ children) = c ∷ flatten children

-- `children[start..start + width].iter().flatten()`
abbrev pub present_in : (start width : ℕ) → Children → List Child
present_in start width children = flatten (take width (drop start children))

module _ (sha256 : Bytes → Hash) where
  -- The `match` of `subtree_hash` where the range can be halved; `split` is the hash of the halves.
  unfoldable pub collapse : List Child → (split : Hash) → Hash
  collapse [] split = placeholder sha256
  collapse (only ∷ []) split = if only.is_leaf then only.hash else split
  collapse (c ∷ c' ∷ more) split = split

  unfoldable pub single_slot : List Child → Hash
  single_slot [] = placeholder sha256
  single_slot (c ∷ more) = c.hash

  -- The width is `2 ^ levels`: 16 at the top, and halved down to 1.
  unfoldable pub subtree_hash : Children → (start levels : ℕ) → Hash
  subtree_hash children start zero = single_slot (present_in start 1 children)
  subtree_hash children start (suc levels) =
      let half = 2 ^ levels in
      let left = subtree_hash children start levels in
      let right = subtree_hash children (start + half) levels in
      collapse (present_in start (2 ^ suc levels) children) (internal_hash sha256 left right)

  unfoldable pub hash : Node → Hash
  hash (leaf l) = leaf_hash sha256 l.path l.vh
  hash (internal children) = subtree_hash children 0 4
