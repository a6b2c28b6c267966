-- ===== src/Merkle/Node/Decoded.antt =====
-- What the node decoder of crates/enclave-os-merkle/src/node.rs lets through has 16 slots and hashes
-- of 32 bytes, as the source's types say.
use privasys_enclave_os_mini.Common.{
  ℕ, zero, suc, ◌+◌, ◌*◌, ◌/◌, ◌%◌, ◌≤◌, ◌≡◌, refl, ap, ◌∙◌, inl, inr, none, some, [], ◌∷◌, arith,
  ltb, ◌==◌, ==_iff, length, drop, Bool-cases,
}
use mathlib.Core.Path.{subst}
use privasys_enclave_os_mini.Common.Bytes.{
  Bytes, byte_at, slice, from_le_bytes, from_be_bytes, length-slice,
}
use privasys_enclave_os_mini.Common.Results.{Result, ok, Result-outcome}
use privasys_enclave_os_mini.Merkle.Error.{MerkleError}
use privasys_enclave_os_mini.Merkle.Hash.{IsHash}
use privasys_enclave_os_mini.Merkle.Node.{
  Child, Children, Node, internal, leaf, count_ones, decode_flag, decode_child, decode_children,
  decode_leaf, decode_internal, decode,
}
use privasys_enclave_os_mini.Merkle.Node.Subtree.{AreHashes}

abbrev pub HasHashes : Node → Type 0
HasHashes (internal cs) = (length cs ≡ 16) × AreHashes cs
HasHashes (leaf l) = IsHash l.path × IsHash l.vh

decode_child-hash :
    (off : ℕ) (bytes : Bytes) (c : Child)
    → off + 41 ≤ length bytes
    → decode_child off bytes ≡ ok c
    → IsHash c.hash
unfolding decode_child
decode_child-hash off bytes c long e =
    elim (Result-outcome (decode_flag (byte_at bytes (off + 8 + 32)))) [
      | inr (x, q) ↦ absurd (cc (rw q at e))
      | inl (b, q) ↦
          let r : ◌≡◌ {A = Result MerkleError Child}
              (ok (record {
                version = from_be_bytes (slice off (off + 8) bytes);
                hash = slice (off + 8) (off + 8 + 32) bytes;
                is_leaf = b;
              }))
              (ok c) =
            rw q at e in
          let hash_eq : slice (off + 8) (off + 8 + 32) bytes ≡ c.hash = cc r in
          subst IsHash hash_eq
            (length-slice (off + 8) (off + 8 + 32) bytes (omega arith) (omega arith) ∙ omega arith)
    ]

decode_children-AreHashes :
    (slots bits off : ℕ) (bytes : Bytes) (cs : Children)
    → off + count_ones slots bits * 41 ≤ length bytes
    → decode_children slots bits off bytes ≡ ok cs
    → (length cs ≡ slots) × AreHashes cs
unfolding decode_children count_ones
decode_children-AreHashes zero bits off bytes cs long e =
    let r : [] ≡ cs = cc e in rw (← r) (refl, tt)
decode_children-AreHashes (suc slots) bits off bytes cs long e = elim (Bool-cases (bits % 2 == 0)) [
  | inl even ↦ elim (Result-outcome (decode_children slots (bits / 2) off bytes)) [
    | inr (x, q) ↦ absurd (cc (rw (even, q) at e))
    | inl (rest, q) ↦
        let (n, hs) = decode_children-AreHashes slots (bits / 2) off bytes rest (omega arith) q in
        let r : none ∷ rest ≡ cs = cc (rw (even, q) at e) in rw (← r) (ap suc n, hs)
  ]
  | inr odd ↦ elim (Result-outcome (decode_child off bytes)) [
    | inr (x, q) ↦ absurd (cc (rw (odd, q) at e))
    | inl (c, q) ↦
        let one : bits % 2 ≡ 1 = ground arith in
        elim (Result-outcome (decode_children slots (bits / 2) (off + 41) bytes)) [
          | inr (x, q') ↦ absurd (cc (rw (odd, q, q') at e))
          | inl (rest, q') ↦
              let (n, hs) =
                decode_children-AreHashes slots (bits / 2) (off + 41) bytes rest (omega arith) q' in
              let r : some c ∷ rest ≡ cs = cc (rw (odd, q, q') at e) in
              rw (← r) (ap suc n, (decode_child-hash off bytes c (omega arith) q, hs))
        ]
  ]
]

decode_leaf-HasHashes : (bytes : Bytes) (n : Node) → decode_leaf bytes ≡ ok n → HasHashes n
unfolding decode_leaf
decode_leaf-HasHashes bytes n e = elim (Bool-cases (length bytes == 73)) [
  | inr other ↦ absurd (cc (rw other at e))
  | inl sized ↦
      let long : length bytes ≡ 73 = (==_iff _ _).0 sized in
      let r : leaf (record {
        path = slice 1 33 bytes;
        vh = slice 33 65 bytes;
        value_version = from_be_bytes (drop 65 bytes);
      })
          ≡ n =
        cc (rw sized at e) in
      subst HasHashes r (
        length-slice 1 33 bytes (omega arith) (omega arith),
        length-slice 33 65 bytes (omega arith) (omega arith),
      )
]

decode_internal-HasHashes : (bytes : Bytes) (n : Node) → decode_internal bytes ≡ ok n → HasHashes n
unfolding decode_internal
decode_internal-HasHashes bytes n e =
    let bits : ℕ = from_le_bytes (slice 1 3 bytes) in
    let count : ℕ = count_ones 16 bits in
    elim (Bool-cases (ltb (length bytes) 3)) [
      | inl short ↦ absurd (cc (rw short at e))
      | inr long ↦ elim (Bool-cases (count == 0)) [
        | inl no_child ↦ absurd (cc (rw (long, no_child) at e))
        | inr some_child ↦ elim (Bool-cases (length bytes == 3 + count * 41)) [
          | inr other ↦ absurd (cc (rw (long, some_child, other) at e))
          | inl sized ↦ elim (Result-outcome (decode_children 16 bits 3 bytes)) [
            | inr (x, q) ↦ absurd (cc (rw (long, some_child, sized, q) at e))
            | inl (cs, q) ↦
                let size : length bytes ≡ 3 + count * 41 = (==_iff _ _).0 sized in
                let r : internal cs ≡ n = cc (rw (long, some_child, sized, q) at e) in
                subst HasHashes r (decode_children-AreHashes 16 bits 3 bytes cs (omega arith) q)
          ]
        ]
      ]
    ]

pub decode-HasHashes : (bytes : Bytes) (n : Node) → decode bytes ≡ ok n → HasHashes n
unfolding decode
decode-HasHashes [] n e = absurd (cc e)
decode-HasHashes (tag ∷ rest) n e = elim (Bool-cases (tag == 2)) [
  | inl two ↦ decode_leaf-HasHashes (tag ∷ rest) n (rw two at e)
  | inr not_two ↦ elim (Bool-cases (tag == 1)) [
    | inl one ↦ decode_internal-HasHashes (tag ∷ rest) n (rw (not_two, one) at e)
    | inr other ↦ absurd (cc (rw (not_two, other) at e))
  ]
]
