-- ===== src/Merkle/Proof/Codec.antt =====
-- The encoding of proofs of crates/enclave-os-merkle/src/proof.rs: its round trips.
use privasys_enclave_os_mini.Common.{
  ℕ, suc, ◌+◌, ◌*◌, ◌≤◌, ◌≡◌, refl, sym, ap, ◌∙◌, true, false, Option, none, some, List, [], ◌∷◌,
  ◌++◌, arith, ltb, ◌==◌, ==_iff, length, All, length-append,
}
use mathlib.Core.List.{append_assoc}
use privasys_enclave_os_mini.Common.Bytes.{
  Bytes, slice, to_le_bytes, from_le_bytes, from_le_bytes-to_le_bytes, slice_middle,
}
use privasys_enclave_os_mini.Common.Results.{ok}
use privasys_enclave_os_mini.Merkle.Hash.{Hash, IsHash, concat}
use privasys_enclave_os_mini.Merkle.Proof.{
  Proof, encode, decode, encode_leaf, decode_leaf, read_siblings,
}
use privasys_enclave_os_mini.Merkle.Proof.Sound.{IsProof, LeafIsHash}

-- Where the leaf's encoding ends.
leaf_size : Option (Hash × Hash) → ℕ
leaf_size none = 1
leaf_size (some _) = 65

length-encode_leaf :
    (l : Option (Hash × Hash)) → LeafIsHash l → length (encode_leaf l) ≡ leaf_size l
unfolding leaf_size encode_leaf
length-encode_leaf none h = refl
length-encode_leaf (some (p, v)) (hp, hv) = omega (arith, length-append p v)

length-concat : (hs : List Hash) → All IsHash hs → length (concat hs) ≡ length hs * 32
length-concat [] h = refl
length-concat (x ∷ xs) (h, hs) = omega (arith, length-append x (concat xs), length-concat xs hs)

decode_leaf-encode_leaf :
    (l : Option (Hash × Hash)) (rest : Bytes)
    → LeafIsHash l
    → decode_leaf (encode_leaf l ++ rest) ≡ ok (l, leaf_size l)
unfolding decode_leaf encode_leaf leaf_size
decode_leaf-encode_leaf none rest h = refl
decode_leaf-encode_leaf (some (p, v)) rest (hp, hv) =
    let long : ltb (suc (length ((p ++ v) ++ rest))) 65 ≡ false =
      ground (arith, length-append (p ++ v) rest, length-append p v) in
    let path_eq : slice 1 33 (1 ∷ ((p ++ v) ++ rest)) ≡ p =
      ap (λ t. slice 1 33 (1 ∷ t)) (append_assoc p v rest)
      ∙ slice_middle 1 33 (1 ∷ []) p (v ++ rest) refl hp in
    let vh_eq : slice 33 65 (1 ∷ ((p ++ v) ++ rest)) ≡ v =
      ap (λ t. slice 33 65 (1 ∷ t)) (append_assoc p v rest)
      ∙ slice_middle 33 65 (1 ∷ p) v rest (omega arith) hv in
    rw (long, path_eq, vh_eq)

read_siblings-concat :
    (hs : List Hash) (pre : Bytes)
    → All IsHash hs
    → read_siblings (length hs) (length pre) (pre ++ concat hs) ≡ hs
unfolding read_siblings
read_siblings-concat [] pre h = refl
read_siblings-concat (x ∷ xs) pre (h, hs) =
    let here : slice (length pre) (length pre + 32) (pre ++ (x ++ concat xs)) ≡ x =
      slice_middle (length pre) (length pre + 32) pre x (concat xs) refl (omega arith) in
    let rest : read_siblings (length xs) (length pre + 32) (pre ++ (x ++ concat xs)) ≡ xs =
      ap (λ t. read_siblings (length xs) (length pre + 32) t) (sym (append_assoc pre x (concat xs)))
      ∙ ap (λ n. read_siblings (length xs) n ((pre ++ x) ++ concat xs)) {x = length pre + 32}
          {y = length (pre ++ x)} (omega (arith, length-append pre x))
      ∙ read_siblings-concat xs (pre ++ x) hs in
    rw (here, rest)

decode-parts :
    (bytes : Bytes) (l : Option (Hash × Hash)) (off count : ℕ) (hs : List Hash)
    → decode_leaf bytes ≡ ok (l, off)
    → from_le_bytes (slice off (off + 2) bytes) ≡ count
    → count ≤ 256
    → length bytes ≡ off + 2 + count * 32
    → read_siblings count (off + 2) bytes ≡ hs
    → decode bytes ≡ ok (record { leaf = l; siblings = hs })
unfolding decode
decode-parts bytes l off count hs front counted few long read =
    let t1 : ltb (length bytes) (off + 2) ≡ false = ground arith in
    let t2 : ltb 256 count ≡ false = ground arith in
    let t3 : (length bytes == off + 2 + count * 32) ≡ true = (==_iff _ _).1 long in
    rw (front, t1, counted, t2, t3, read)

-- For a proof of 32-byte hashes with at most 256 siblings, decoding its encoding gives it back.
pub decode-encode :
    (proof : Proof) → IsProof proof → length proof.siblings ≤ 256 → decode (encode proof) ≡ ok proof
unfolding encode leaf_size
decode-encode proof (hl, hs) few =
    let front : Bytes = encode_leaf proof.leaf in
    let n : ℕ = length proof.siblings in
    let mid : Bytes = to_le_bytes 2 n in
    let off : ℕ = leaf_size proof.leaf in
    let front_length : length front ≡ off = length-encode_leaf proof.leaf hl in
    let split : encode proof ≡ (front ++ mid) ++ concat proof.siblings =
      sym (append_assoc front mid (concat proof.siblings)) in
    let sizes : length (front ++ mid) ≡ off + 2 = omega (arith, length-append front mid) in
    decode-parts (encode proof) proof.leaf off n proof.siblings
      (decode_leaf-encode_leaf proof.leaf (mid ++ concat proof.siblings) hl)
      (ap from_le_bytes
          (slice_middle off (off + 2) front mid (concat proof.siblings) front_length (omega arith))
        ∙ from_le_bytes-to_le_bytes 2 n (omega arith))
      few
      (omega (
        arith,
        length-append front (mid ++ concat proof.siblings),
        length-concat proof.siblings hs,
      ))
      (ap (λ t. read_siblings n (off + 2) t) split
        ∙ ap (λ k. read_siblings n k ((front ++ mid) ++ concat proof.siblings)) (sym sizes)
        ∙ read_siblings-concat proof.siblings (front ++ mid) hs)
