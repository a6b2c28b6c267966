-- ===== src/Merkle/Proof/Strict.antt =====
-- The decoder of crates/enclave-os-merkle/src/proof.rs accepts nothing but encodings.
use privasys_enclave_os_mini.Common.{
  ℕ, zero, suc, ◌+◌, ◌-◌, ◌*◌, ◌≤◌, ◌≡◌, refl, sym, ap, ◌∙◌, inl, inr, not, ◌||◌, Option, none,
  some, [], ◌∷◌, ◌++◌, arith, ltb, ◌==◌, ==_iff, length, All, drop, drop-length, Bool-cases,
}
use mathlib.Core.List.{append_assoc, append-nil}
use privasys_enclave_os_mini.Common.Tests.{or-false, not-false}
use privasys_enclave_os_mini.Common.Bytes.{
  Bytes, IsByte, slice, to_le_bytes, from_le_bytes, slice-drop, to_le_bytes-slice,
}
use privasys_enclave_os_mini.Common.Results.{Result, ok, Result-outcome}
use privasys_enclave_os_mini.Merkle.Error.{MerkleError}
use privasys_enclave_os_mini.Merkle.Hash.{Hash, concat}
use privasys_enclave_os_mini.Merkle.Proof.{
  Proof, encode, decode, encode_leaf, decode_leaf, read_siblings,
}

concat-read_siblings :
    (count off : ℕ) (bytes : Bytes)
    → off + count * 32 ≤ length bytes
    → concat (read_siblings count off bytes) ++ drop (off + count * 32) bytes ≡ drop off bytes
unfolding read_siblings
concat-read_siblings zero off bytes h =
    ap (λ k. drop k bytes) {x = off + 0 * 32} {y = off} (omega arith)
concat-read_siblings (suc count) off bytes h =
    let rest = concat (read_siblings count (off + 32) bytes) in
    append_assoc (slice off (off + 32) bytes) rest (drop (off + suc count * 32) bytes)
    ∙ ap (λ k. slice off (off + 32) bytes ++ (rest ++ drop k bytes)) {x = off + suc count * 32}
        {y = off + 32 + count * 32} (omega arith)
    ∙ ap (λ t. slice off (off + 32) bytes ++ t)
        (concat-read_siblings count (off + 32) bytes (omega arith))
    ∙ slice-drop off (off + 32) bytes (omega arith)

length-read_siblings :
    (count off : ℕ) (bytes : Bytes) → length (read_siblings count off bytes) ≡ count
unfolding read_siblings
length-read_siblings zero off bytes = refl
length-read_siblings (suc count) off bytes = ap suc (length-read_siblings count (off + 32) bytes)

encode_leaf-decode_leaf :
    (bytes : Bytes) (l : Option (Hash × Hash)) (off : ℕ)
    → decode_leaf bytes ≡ ok (l, off)
    → encode_leaf l ++ drop off bytes ≡ bytes
unfolding decode_leaf encode_leaf
encode_leaf-decode_leaf [] l off e = absurd (cc e)
encode_leaf-decode_leaf (first ∷ rest) l off e = elim (Bool-cases (first == 0)) [
  | inl z ↦
      let r = rw z at e in
      let l_eq : none ≡ l = cc r in
      let off_eq : 1 ≡ off = cc r in rw (← l_eq, ← off_eq, (==_iff first 0).0 z) refl
  | inr nz ↦ elim (Bool-cases (first == 1)) [
    | inr no1 ↦ absurd (cc (rw (nz, no1) at e))
    | inl one ↦ elim (Bool-cases (ltb (suc (length rest)) 65)) [
      | inl short ↦ absurd (cc (rw (nz, one, short) at e))
      | inr long ↦
          let r = rw (nz, one, long) at e in
          let l_eq : some (slice 1 33 (first ∷ rest), slice 33 65 (first ∷ rest)) ≡ l = cc r in
          let off_eq : 65 ≡ off = cc r in
          rw (← l_eq, ← off_eq)
            (append_assoc (1 ∷ slice 1 33 (first ∷ rest)) (slice 33 65 (first ∷ rest))
                (drop 65 (first ∷ rest))
              ∙ ap (λ t. 1 ∷ (slice 1 33 (first ∷ rest) ++ t))
                  (slice-drop 33 65 (first ∷ rest) (omega arith))
              ∙ ap (λ t. 1 ∷ t) (slice-drop 1 33 (first ∷ rest) (omega arith))
              ∙ ap (λ b. b ∷ rest) (sym ((==_iff first 1).0 one)))
    ]
  ]
]

-- What the checks behind the leaf have established.
decode-checks :
    (bytes : Bytes) (proof : Proof)
    → decode bytes ≡ ok proof
    → (off count : ℕ) × (decode_leaf bytes ≡ ok (proof.leaf, off))
      × (from_le_bytes (slice off (off + 2) bytes) ≡ count)
      × (length bytes ≡ off + 2 + count * 32)
      × (read_siblings count (off + 2) bytes ≡ proof.siblings)
unfolding decode
decode-checks bytes proof e = elim (Result-outcome (decode_leaf bytes)) [
  | inr (x, q) ↦ absurd (cc (rw q at e))
  | inl ((l, off), q) ↦
      let count : ℕ = from_le_bytes (slice off (off + 2) bytes) in
      elim (Bool-cases (ltb (length bytes) (off + 2))) [
        | inl short ↦ absurd (cc (rw (q, short) at e))
        | inr long ↦
            elim (Bool-cases (ltb 256 count || not (length bytes == off + 2 + count * 32))) [
              | inl refused ↦ absurd (cc (rw (q, long, refused) at e))
              | inr accepted ↦
                  let r : ◌≡◌ {A = Result MerkleError Proof}
                      (ok (record { leaf = l; siblings = read_siblings count (off + 2) bytes }))
                      (ok proof) =
                    rw (q, long, accepted) at e in
                  let sized = (or-false (ltb 256 count) _ accepted).1 in
                  (
                    off,
                    count,
                    q ∙ ap (λ x. ok (x, off)) (cc r),
                    refl,
                    (==_iff _ _).0 (not-false _ sized),
                    cc r,
                  )
            ]
      ]
]

-- A byte string that decodes is the encoding of what it decodes to: a proof has one encoding.
pub encode-decode :
    (bytes : Bytes) (proof : Proof)
    → All IsByte bytes
    → decode bytes ≡ ok proof
    → encode proof ≡ bytes
unfolding encode
encode-decode bytes proof octets e =
    let (off, count, front, counted, sized, read) = decode-checks bytes proof e in
    let n_eq : length proof.siblings ≡ count =
      ap length (sym read) ∙ length-read_siblings count (off + 2) bytes in
    let number : to_le_bytes 2 (length proof.siblings) ≡ slice off (off + 2) bytes =
      ap (to_le_bytes 2) (n_eq ∙ sym counted)
      ∙ ap (λ w. to_le_bytes w (from_le_bytes (slice off (off + 2) bytes))) {x = 2}
          {y = off + 2 - off} (omega arith)
      ∙ (to_le_bytes-slice off (off + 2) bytes octets (omega arith) (omega arith)).0 in
    let tail : concat proof.siblings ≡ drop (off + 2) bytes =
      ap concat (sym read)
      ∙ sym (append-nil (concat (read_siblings count (off + 2) bytes)))
      ∙ ap (λ t. concat (read_siblings count (off + 2) bytes) ++ t)
          (sym (drop-length bytes) ∙ ap (λ k. drop k bytes) sized)
      ∙ concat-read_siblings count (off + 2) bytes (omega arith) in
    ap (λ t. encode_leaf proof.leaf ++ (t ++ concat proof.siblings)) number
    ∙ ap (λ t. encode_leaf proof.leaf ++ (slice off (off + 2) bytes ++ t)) tail
    ∙ ap (λ t. encode_leaf proof.leaf ++ t) (slice-drop off (off + 2) bytes (omega arith))
    ∙ encode_leaf-decode_leaf bytes proof.leaf off front
