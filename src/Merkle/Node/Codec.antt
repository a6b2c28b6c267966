-- ===== src/Merkle/Node/Codec.antt =====
-- The node codec of crates/enclave-os-merkle/src/node.rs: what was encoded is decoded again.
use privasys_enclave_os_mini.Common.{
  ℕ, ◌+◌, ◌*◌, ◌/◌, ◌%◌, ◌^◌, ◌<◌, ◌≡◌, ◌≢◌, refl, sym, ap, ◌∙◌, Bool, true, false, none, some,
  List, [], ◌∷◌, ◌++◌, arith, ltb, ◌==◌, ==_iff, if◌then◌else◌, length, All, drop, length-append,
  drop-append_left,
}
use mathlib.Core.List.{append_assoc}
use native.Mathlib.Nat.{pow-suc}
use privasys_enclave_os_mini.Common.Bytes.{
  Bytes, byte_at, slice, to_le_bytes, from_le_bytes, to_be_bytes, from_be_bytes,
  from_le_bytes-to_le_bytes, from_be_bytes-to_be_bytes, length-to_be_bytes, slice_middle,
  byte_at_middle,
}
use privasys_enclave_os_mini.Common.Results.{ok}
use privasys_enclave_os_mini.Merkle.Hash.{IsHash}
use privasys_enclave_os_mini.Merkle.Node.{
  Child, Children, LeafNode, Node, internal, leaf, bitmap, count_ones, encode_child,
  encode_children, encode, decode_flag, decode_child, decode_children, decode_leaf, decode_internal,
  decode, flatten,
}

-- The ranges of the source's `u64` and `[u8; 32]` fields.
abbrev pub IsChild : Child → Type 0
IsChild c = (c.version < 256 ^ 8) × IsHash c.hash

abbrev pub IsNode : Node → Type 0
IsNode (internal children) = (length children ≡ 16) × All IsChild (flatten children)
IsNode (leaf l) = IsHash l.path × IsHash l.vh × (l.value_version < 256 ^ 8)

flag : Bool → ℕ
flag b = if b then 1 else 0

decode_flag-flag : (b : Bool) → decode_flag (flag b) ≡ ok b
unfolding decode_flag flag
decode_flag-flag true = refl
decode_flag-flag false = refl

-- One child behind `pre`, its three fields one after the other.
decode_child-fields :
    (c : Child) (off : ℕ) (pre rest : Bytes)
    → IsChild c
    → length pre ≡ off
    → decode_child off (pre ++ (to_be_bytes 8 c.version ++ (c.hash ++ flag c.is_leaf ∷ rest)))
      ≡ ok c
unfolding decode_child
decode_child-fields c off pre rest (hv, hh) e =
    let v : Bytes = to_be_bytes 8 c.version in
    let f : ℕ = flag c.is_leaf in
    let all : Bytes = pre ++ (v ++ (c.hash ++ f ∷ rest)) in
    let v_length : length v ≡ 8 = length-to_be_bytes 8 c.version in
    let v_eq : from_be_bytes (slice off (off + 8) all) ≡ c.version =
      ap from_be_bytes (slice_middle off (off + 8) pre v (c.hash ++ f ∷ rest) e (omega arith))
      ∙ from_be_bytes-to_be_bytes 8 c.version hv in
    let h_eq : slice (off + 8) (off + 8 + 32) all ≡ c.hash =
      ap (slice (off + 8) (off + 8 + 32)) (sym (append_assoc pre v (c.hash ++ f ∷ rest)))
      ∙ slice_middle (off + 8) (off + 8 + 32) (pre ++ v) c.hash (f ∷ rest)
          (omega (arith, length-append pre v)) (omega arith) in
    let f_eq : byte_at all (off + 8 + 32) ≡ f =
      ap (λ t. byte_at t (off + 8 + 32))
        (sym (append_assoc pre v (c.hash ++ f ∷ rest))
          ∙ sym (append_assoc (pre ++ v) c.hash (f ∷ rest)))
      ∙ byte_at_middle (off + 8 + 32) ((pre ++ v) ++ c.hash) f rest
          (omega (arith, length-append (pre ++ v) c.hash, length-append pre v)) in
    rw (f_eq, decode_flag-flag c.is_leaf, v_eq, h_eq) refl

decode_child-encode_child :
    (c : Child) (off : ℕ) (pre rest : Bytes)
    → IsChild c
    → length pre ≡ off
    → decode_child off (pre ++ (encode_child c ++ rest)) ≡ ok c
unfolding encode_child flag
decode_child-encode_child c off pre rest h e =
    let f : Bytes = flag c.is_leaf ∷ [] in
    ap (λ t. decode_child off (pre ++ t))
      (append_assoc (to_be_bytes 8 c.version) (c.hash ++ f) rest
        ∙ ap (λ t. to_be_bytes 8 c.version ++ t) (append_assoc c.hash f rest))
    ∙ decode_child-fields c off pre rest h e

length-encode_child : (c : Child) → IsChild c → length (encode_child c) ≡ 41
unfolding encode_child
length-encode_child c (hv, hh) =
    let f : Bytes = (if c.is_leaf then 1 else 0) ∷ [] in
    omega (
      arith,
      length-append (to_be_bytes 8 c.version) (c.hash ++ f),
      length-to_be_bytes 8 c.version,
      length-append c.hash f,
    )

length-encode_children :
    (cs : Children)
    → All IsChild (flatten cs)
    → length (encode_children cs) ≡ length (flatten cs) * 41
unfolding encode_children
length-encode_children [] h = refl
length-encode_children (none ∷ cs) h = length-encode_children cs h
length-encode_children (some c ∷ cs) (h, hs) = omega (
  arith,
  length-append (encode_child c) (encode_children cs),
  length-encode_child c h,
  length-encode_children cs hs,
)

bitmap-lt : (cs : Children) → bitmap cs < 2 ^ length cs
unfolding bitmap
bitmap-lt [] = omega arith
bitmap-lt (none ∷ cs) = omega (arith, bitmap-lt cs, pow-suc 2 (length cs))
bitmap-lt (some c ∷ cs) = omega (arith, bitmap-lt cs, pow-suc 2 (length cs))

count_ones-bitmap : (cs : Children) → count_ones (length cs) (bitmap cs) ≡ length (flatten cs)
unfolding count_ones bitmap
count_ones-bitmap [] = refl
count_ones-bitmap (none ∷ cs) = omega (
  arith,
  ap (count_ones (length cs)) {x = 2 * bitmap cs / 2} {y = bitmap cs} (omega arith),
  count_ones-bitmap cs,
)
count_ones-bitmap (some c ∷ cs) = omega (
  arith,
  ap (count_ones (length cs)) {x = (1 + 2 * bitmap cs) / 2} {y = bitmap cs} (omega arith),
  count_ones-bitmap cs,
)

decode_children-encode_children :
    (cs : Children) (off : ℕ) (pre : Bytes)
    → All IsChild (flatten cs)
    → length pre ≡ off
    → decode_children (length cs) (bitmap cs) off (pre ++ encode_children cs) ≡ ok cs
unfolding decode_children encode_children bitmap
decode_children-encode_children [] off pre h e = refl
decode_children-encode_children (none ∷ cs) off pre h e =
    let even : (2 * bitmap cs % 2 == 0) ≡ true = (==_iff _ _).1 (omega arith) in
    let half : 2 * bitmap cs / 2 ≡ bitmap cs = omega arith in
    rw (even, half, decode_children-encode_children cs off pre h e)
decode_children-encode_children (some c ∷ cs) off pre (h, hs) e =
    let odd : ((1 + 2 * bitmap cs) % 2 == 0) ≡ false = ground arith in
    let half : (1 + 2 * bitmap cs) / 2 ≡ bitmap cs = omega arith in
    let rest : decode_children (length cs) (bitmap cs) (off + 41)
          (pre ++ (encode_child c ++ encode_children cs))
        ≡ ok cs =
      ap (decode_children (length cs) (bitmap cs) (off + 41))
        (sym (append_assoc pre (encode_child c) (encode_children cs)))
      ∙ decode_children-encode_children cs (off + 41) (pre ++ encode_child c) hs
          (omega (arith, length-append pre (encode_child c), length-encode_child c h)) in
    rw (odd, decode_child-encode_child c off pre (encode_children cs) h e, half, rest)

decode_internal-encode :
    (cs : Children)
    → length cs ≡ 16
    → All IsChild (flatten cs)
    → flatten cs ≢ []
    → decode_internal (encode (internal cs)) ≡ ok (internal cs)
unfolding decode_internal encode
decode_internal-encode cs n h some_child =
    let front : Bytes = 1 ∷ to_le_bytes 2 (bitmap cs) in
    let all : Bytes = encode (internal cs) in
    let k : ℕ = length (flatten cs) in
    let sized : length all ≡ 3 + k * 41 = omega (arith, length-encode_children cs h) in
    let t1 : ltb (length all) 3 ≡ false = ground arith in
    let small : bitmap cs < 256 ^ 2 = omega (arith, bitmap-lt cs, ap (λ w. 2 ^ w) n) in
    let bits : from_le_bytes (slice 1 3 all) ≡ bitmap cs =
      from_le_bytes-to_le_bytes 2 (bitmap cs) small in
    let ones : count_ones 16 (bitmap cs) ≡ k =
      ap (λ w. count_ones w (bitmap cs)) (sym n) ∙ count_ones-bitmap cs in
    let t2 : (k == 0) ≡ false = not_empty (flatten cs) some_child in
    let t3 : (length all == 3 + k * 41) ≡ true = (==_iff _ _).1 sized in
    let read : decode_children 16 (bitmap cs) 3 all ≡ ok cs =
      ap (λ w. decode_children w (bitmap cs) 3 all) (sym n)
      ∙ decode_children-encode_children cs 3 front h refl in
    rw (t1, bits, ones, t2, t3, read)
  where
    not_empty : (l : List Child) → l ≢ [] → (length l == 0) ≡ false
    not_empty [] ne = absurd (ne refl)
    not_empty (c ∷ l) ne = ground arith

decode_leaf-encode : (l : LeafNode) → IsNode (leaf l) → decode_leaf (encode (leaf l)) ≡ ok (leaf l)
unfolding decode_leaf encode
decode_leaf-encode l (hp, hv, hw) =
    let v : Bytes = to_be_bytes 8 l.value_version in
    let all : Bytes = encode (leaf l) in
    let front : Bytes = 2 ∷ (l.path ++ l.vh) in
    let front_length : length front ≡ 65 = omega (arith, length-append l.path l.vh) in
    let sized : (length all == 73) ≡ true = (==_iff _ _).1 (
      omega (
        arith,
        length-append l.path (l.vh ++ v),
        length-append l.vh v,
        length-to_be_bytes 8 l.value_version,
      )) in
    let path_eq : slice 1 33 all ≡ l.path = slice_middle 1 33 (2 ∷ []) l.path (l.vh ++ v) refl hp in
    let vh_eq : slice 33 65 all ≡ l.vh = slice_middle 33 65 (2 ∷ l.path) l.vh v (omega arith) hv in
    let version_eq : from_be_bytes (drop 65 all) ≡ l.value_version =
      ap from_be_bytes (
        ap (λ t. drop 65 (2 ∷ t)) (sym (append_assoc l.path l.vh v))
        ∙ ap (λ k. drop k (front ++ v)) (sym front_length)
        ∙ drop-append_left front v)
      ∙ from_be_bytes-to_be_bytes 8 l.value_version hw in
    rw (sized, path_eq, vh_eq, version_eq) refl

-- An internal node has a child.
abbrev pub HasChild : Node → Type 0
HasChild (internal children) = flatten children ≢ []
HasChild (leaf l) = Unit {0}

-- For a node whose fields are in the range of their types, 16 slots included, and that is a leaf
-- or has a child, decoding the encoding gives it back.
pub decode-encode_node : (n : Node) → IsNode n → HasChild n → decode (encode n) ≡ ok n
unfolding decode encode
decode-encode_node (internal cs) (n, h) some_child = decode_internal-encode cs n h some_child
decode-encode_node (leaf l) h none_needed = decode_leaf-encode l h
