-- ===== src/Rpc/Frame/Parts.antt =====
-- `encode_request_parts_into_bounded` of common/src/rpc.rs writes the frame of the joined parts.
use privasys_enclave_os_mini.Common.{
  ℕ, zero, suc, ◌+◌, ◌^◌, ◌≤◌, ◌<◌, min, ◌≡◌, refl, sym, ap, ◌∙◌, true, false, none, some, List, [],
  ◌∷◌, ◌++◌, arith, leb, ltb, if◌then◌else◌, length, take, drop, length-append, length-take,
  length-drop, take-append-drop, take-append_left, Bool-cases, inl, inr, leb→le, ltb→lt,
  ltb-false→le,
}
use privasys_enclave_os_mini.Common.Bytes.{Bytes, drop-drop}
use privasys_enclave_os_mini.Queue.Capacity.{max_msg_size}
use privasys_enclave_os_mini.Rpc.Method.{RpcMethod}
use privasys_enclave_os_mini.Rpc.Frame.{
  encode_request, parts_len, copy_parts, splice, request_header, encode_request_parts_into_bounded,
  framed_payload_len_valid, u32_max,
}
use privasys_enclave_os_mini.Rpc.Frame.RoundTrip.{framed_payload_len_valid_lem}
use mathlib.Core.List.{append_assoc}
use mathlib.Core.Path.{ap₂}
use native.Mathlib.Decide.{dec_lt}

-- The parts one after the other.
abbrev pub concat : List Bytes → Bytes
concat [] = []
concat (part ∷ parts) = part ++ concat parts

take-append_plus :
    (xs ys : Bytes) (n : ℕ) → n ≡ length xs → (k : ℕ) → take (n + k) (xs ++ ys) ≡ xs ++ take k ys
take-append_plus [] ys n e k = ap (λ t. take t ys) {x = n + k} {y = k} (omega arith)
take-append_plus (x ∷ xs) ys zero e k = absurd (omega arith)
take-append_plus (x ∷ xs) ys (suc n) e k =
    ap (λ t. take t (x ∷ (xs ++ ys))) {x = suc n + k} {y = suc (n + k)} (omega arith)
    ∙ ap (λ t. x ∷ t) (take-append_plus xs ys n (omega arith) k)

drop-append_plus :
    (xs ys : Bytes) (n : ℕ) → n ≡ length xs → (k : ℕ) → drop (n + k) (xs ++ ys) ≡ drop k ys
drop-append_plus [] ys n e k = ap (λ t. drop t ys) {x = n + k} {y = k} (omega arith)
drop-append_plus (x ∷ xs) ys zero e k = absurd (omega arith)
drop-append_plus (x ∷ xs) ys (suc n) e k =
    ap (λ t. drop t (x ∷ (xs ++ ys))) {x = suc n + k} {y = suc (n + k)} (omega arith)
    ∙ drop-append_plus xs ys n (omega arith) k

parts_len_lem :
    (total : ℕ) (parts : List Bytes)
    → total < 2 ^ 64
    → parts_len total parts ≡ (
        if ltb (total + length (concat parts)) (2 ^ 64)
        then some (total + length (concat parts))
        else none)
unfolding parts_len
parts_len_lem total [] h =
    let t : ltb (total + 0) (2 ^ 64) ≡ true = ground arith in rw t (ap some (omega arith))
parts_len_lem total (part ∷ parts) h = elim (Bool-cases (ltb (total + length part) (2 ^ 64))) [
  | inl small ↦
      let e : total + length part + length (concat parts) ≡ total + length (part ++ concat parts) =
        omega (arith, length-append part (concat parts)) in
      rw small (
        parts_len_lem (total + length part) parts (ltb→lt _ _ small)
        ∙ ap (λ n. if ltb n (2 ^ 64) then some n else none) e)
  | inr large ↦
      let t : ltb (total + length (part ++ concat parts)) (2 ^ 64) ≡ false =
        ground (arith, ltb-false→le _ _ large, length-append part (concat parts)) in
      rw (large, t)
]

splice-splice :
    (at : ℕ) (a b output : Bytes)
    → at + length a + length b ≤ length output
    → splice (at + length a) b (splice at a output) ≡ splice at (a ++ b) output
splice-splice at a b output fits =
    ap₂ (λ x y. x ++ (b ++ y))
      (take-append_plus T (a ++ D) at len (length a) ∙ ap (λ t. T ++ t) (take-append_left a D))
      (ap (λ k. drop k (T ++ (a ++ D))) {x = at + length a + length b}
          {y = at + (length a + length b)} (omega arith)
        ∙ drop-append_plus T (a ++ D) at len (length a + length b)
        ∙ drop-append_plus a D (length a) refl (length b)
        ∙ drop-drop (length b) (at + length a) output)
    ∙ append_assoc T a (b ++ drop (at + length a + length b) output)
    ∙ ap (λ t. T ++ t) (sym (append_assoc a b (drop (at + length a + length b) output)))
    ∙ ap (λ k. T ++ ((a ++ b) ++ drop k output)) {x = at + length a + length b}
        {y = at + length (a ++ b)} (omega (arith, length-append a b))
  where
    T : Bytes
    T = take at output

    D : Bytes
    D = drop (at + length a) output

    len : at ≡ length T
    len = omega (arith, length-take at output)

length-splice :
    (at : ℕ) (a output : Bytes)
    → at + length a ≤ length output
    → length (splice at a output) ≡ length output
length-splice at a output fits = omega (
  arith,
  length-append (take at output) (a ++ drop (at + length a) output),
  length-take at output,
  length-append a (drop (at + length a) output),
  length-drop (at + length a) output,
)

copy_parts_lem :
    (position : ℕ) (parts : List Bytes) (output : Bytes)
    → position + length (concat parts) ≤ length output
    → length output < 2 ^ 64
    → copy_parts position parts output ≡ some (splice position (concat parts) output)
unfolding copy_parts
copy_parts_lem position [] output fits small = ap some (
    sym (
      ap (λ k. take position output ++ drop k output) {x = position + 0} {y = position}
        (omega arith)
      ∙ take-append-drop position output))
copy_parts_lem position (part ∷ parts) output fits small =
    let e : length (part ++ concat parts) ≡ length part + length (concat parts) =
      length-append part (concat parts) in
    let t : ltb (position + length part) (2 ^ 64) ≡ true = ground arith in
    let l : length (splice position part output) ≡ length output =
      length-splice position part output (omega arith) in
    rw t (
      copy_parts_lem (position + length part) parts (splice position part output) (omega arith)
        (omega arith)
      ∙ ap some (splice-splice position part (concat parts) output (omega arith)))

encode_request_parts-fits :
    (id : ℕ) (m : RpcMethod) (parts : List Bytes) (maximum : ℕ) (output : Bytes)
    → length output < 2 ^ 64
    → 14 + length (concat parts) ≤ min (length output) (min maximum max_msg_size)
    → encode_request_parts_into_bounded id m parts maximum output
      ≡ some (
        14 + length (concat parts),
        encode_request id m (concat parts) ++ drop (14 + length (concat parts)) output,
      )
unfolding encode_request_parts_into_bounded encode_request
encode_request_parts-fits id m parts maximum output small fits =
    let n : ℕ = length (concat parts) in
    let h : Bytes = request_header id m n in
    let t0 : parts_len 0 parts ≡ some n =
      parts_len_lem 0 parts (omega arith)
      ∙ (let t : ltb (0 + n) (2 ^ 64) ≡ true = ground arith in
          rw t (ap some {x = 0 + n} {y = n} (omega arith))) in
    let t1 : framed_payload_len_valid n 14 maximum ≡ true =
      framed_payload_len_valid_lem n 14 maximum (omega arith) ∙ ground arith in
    let t2 : ltb (14 + n) (2 ^ 64) ≡ true = ground arith in
    let t3 : ltb (length output) (14 + n) ≡ false = ground arith in
    let t4 : ltb u32_max n ≡ false = ground arith in
    let l : length (splice 0 h output) ≡ length output = length-splice 0 h output (omega arith) in
    rw (t0, t1, t2, t3, t4, copy_parts_lem 14 parts (splice 0 h output) (omega arith) (omega arith))
      (ap (λ o. some (14 + n, o))
        (ap (λ k. splice k (concat parts) (splice 0 h output)) {x = 14} {y = 0 + length h}
            (omega arith)
          ∙ splice-splice 0 h (concat parts) output (omega arith)
          ∙ ap (λ k. (h ++ concat parts) ++ drop k output) {x = 0 + length (h ++ concat parts)}
              {y = 14 + n} (omega arith)))

encode_request_parts-none :
    (id : ℕ) (m : RpcMethod) (parts : List Bytes) (maximum : ℕ) (output : Bytes)
    → length output < 2 ^ 64
    → min (length output) (min maximum max_msg_size) < 14 + length (concat parts)
    → encode_request_parts_into_bounded id m parts maximum output ≡ none
unfolding encode_request_parts_into_bounded
encode_request_parts-none id m parts maximum output small over =
    let n : ℕ = length (concat parts) in
    elim (dec_lt n (2 ^ 64)) [
      | yes fits ↦
          let t0 : parts_len 0 parts ≡ some n =
            parts_len_lem 0 parts (omega arith)
            ∙ (let t : ltb (0 + n) (2 ^ 64) ≡ true = ground arith in
                rw t (ap some {x = 0 + n} {y = n} (omega arith))) in
          elim (Bool-cases (leb (n + 14) (min maximum max_msg_size))) [
            | inl framed ↦
                let t2 : ltb (14 + n) (2 ^ 64) ≡ true = ground arith in
                let t3 : ltb (length output) (14 + n) ≡ true = ground arith in
                rw (t0, framed_payload_len_valid_lem n 14 maximum (omega arith), framed, t2, t3)
            | inr framed ↦ rw (t0, framed_payload_len_valid_lem n 14 maximum (omega arith), framed)
          ]
      | no large ↦
          let t : ltb (0 + n) (2 ^ 64) ≡ false = ground arith in
          rw (parts_len_lem 0 parts (omega arith), t)
    ]

-- Given storage of less than `2 ^ 64` bytes, the encoder answers exactly when the frame of the
-- joined parts fits the caller's maximum, the ring's largest message and the storage; it then
-- answers the frame's length, and the storage starts with that frame and is unchanged behind it.
pub encode_request_parts_lem :
    (id : ℕ) (m : RpcMethod) (parts : List Bytes) (maximum : ℕ) (output : Bytes)
    → length output < 2 ^ 64
    → encode_request_parts_into_bounded id m parts maximum output ≡ (
        if leb (14 + length (concat parts)) (min (length output) (min maximum max_msg_size))
        then some (
          14 + length (concat parts),
          encode_request id m (concat parts) ++ drop (14 + length (concat parts)) output,
        )
        else none)
encode_request_parts_lem id m parts maximum output small =
    let n : ℕ = 14 + length (concat parts) in
    let bound : ℕ = min (length output) (min maximum max_msg_size) in
    elim (Bool-cases (leb n bound)) [
      | inl e ↦ rw e (encode_request_parts-fits id m parts maximum output small (leb→le n bound e))
      | inr e ↦
          let over : bound < n = ground arith in
          rw e (encode_request_parts-none id m parts maximum output small over)
    ]
