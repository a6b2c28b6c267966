-- ===== src/Rpc/Frame/RoundTrip.antt =====
-- Decoding a frame of common/src/rpc.rs gives back what was encoded, and the encoded frames fit the
-- ring.
use privasys_enclave_os_mini.Common.{
  ℕ, ◌+◌, ◌-◌, ◌^◌, ◌≤◌, ◌<◌, min, ◌≡◌, refl, ap, ◌∙◌, Bool, true, false, not, none, some, ◌++◌,
  arith, leb, ltb, if◌then◌else◌, length, take, length-append, take-append_left,
}
use privasys_enclave_os_mini.Common.Bytes.{Bytes, slice, from_le_bytes, from_le_bytes-to_le_bytes}
use privasys_enclave_os_mini.Rpc.Method.{RpcMethod, to_u16, from_u16-to_u16, to_u16-lt}
use privasys_enclave_os_mini.Queue.Capacity.{max_msg_size}
use privasys_enclave_os_mini.Rpc.Frame.{
  encode_request, encode_request_bounded, encode_response_bounded, framed_payload_len_valid,
  decode_request, encode_response, decode_response, decode_response_header,
}

-- The front part of a sequence, by a length that is computed otherwise.
take_front : (k : ℕ) (xs ys : Bytes) → k ≡ length xs → take k (xs ++ ys) ≡ xs
take_front k xs ys e = ap (λ n. take n (xs ++ ys)) e ∙ take-append_left xs ys

decode_request-fields :
    (bytes : Bytes) (id n : ℕ) (m : RpcMethod)
    → 14 + n ≤ length bytes
    → from_le_bytes (slice 0 8 bytes) ≡ id
    → from_le_bytes (slice 8 10 bytes) ≡ to_u16 m
    → from_le_bytes (slice 10 14 bytes) ≡ n
    → decode_request bytes ≡ some (id, m, slice 14 (14 + n) bytes)
unfolding decode_request
decode_request-fields bytes id n m long e1 e2 e3 =
    let t1 : ltb (length bytes) 14 ≡ false = ground arith in
    let t2 : ltb (length bytes) (14 + n) ≡ false = ground arith in
    rw (t1, e1, e2, from_u16-to_u16 m, e3, t2)

-- For a 64-bit request number and a payload shorter than `2 ^ 32` bytes, `decode_request` reads
-- back what `encode_request` wrote, whatever follows it in the buffer.
pub decode_request-encode_request :
    (id : ℕ) (m : RpcMethod) (payload rest : Bytes)
    → id < 2 ^ 64
    → length payload < 2 ^ 32
    → decode_request (encode_request id m payload ++ rest) ≡ some (id, m, payload)
unfolding encode_request
decode_request-encode_request id m payload rest hid hlen =
    let n : ℕ = length payload in
    decode_request-fields (encode_request id m payload ++ rest) id n m
      (omega (arith, length-append payload rest)) (from_le_bytes-to_le_bytes 8 id hid)
      (from_le_bytes-to_le_bytes 2 (to_u16 m) (to_u16-lt m)) (from_le_bytes-to_le_bytes 4 n hlen)
    ∙ ap (λ p. some (id, m, p)) (take_front (14 + n - 14) payload rest (omega arith))

decode_response-fields :
    (bytes : Bytes) (id status n : ℕ)
    → 16 + n ≤ length bytes
    → n < 2 ^ 32
    → from_le_bytes (slice 0 8 bytes) ≡ id
    → from_le_bytes (slice 8 12 bytes) ≡ status
    → from_le_bytes (slice 12 16 bytes) ≡ n
    → decode_response bytes ≡ some (id, status, slice 16 (16 + n) bytes)
unfolding decode_response decode_response_header
decode_response-fields bytes id status n long small e1 e2 e3 =
    let t1 : ltb (length bytes) 16 ≡ false = ground arith in
    let t2 : ltb (16 + n) (2 ^ 64) ≡ true = ground arith in
    let t3 : leb (16 + n) (length bytes) ≡ true = ground arith in rw (t1, e1, e2, e3, t2, t3)

-- For a 64-bit request number, a 32-bit status and a payload shorter than `2 ^ 32` bytes,
-- `decode_response` reads back what `encode_response` wrote, whatever follows it in the buffer.
pub decode_response-encode_response :
    (id status : ℕ) (payload rest : Bytes)
    → id < 2 ^ 64
    → status < 2 ^ 32
    → length payload < 2 ^ 32
    → decode_response (encode_response id status payload ++ rest) ≡ some (id, status, payload)
unfolding encode_response
decode_response-encode_response id status payload rest hid hs hlen =
    let n : ℕ = length payload in
    decode_response-fields (encode_response id status payload ++ rest) id status n
      (omega (arith, length-append payload rest)) hlen (from_le_bytes-to_le_bytes 8 id hid)
      (from_le_bytes-to_le_bytes 4 status hs) (from_le_bytes-to_le_bytes 4 n hlen)
    ∙ ap (λ p. some (id, status, p)) (take_front (16 + n - 16) payload rest (omega arith))

-- The check is that of the complete frame against both maxima.
pub framed_payload_len_valid_lem :
    (payload header maximum : ℕ)
    → header ≤ 64
    → framed_payload_len_valid payload header maximum
      ≡ leb (payload + header) (min maximum max_msg_size)
unfolding framed_payload_len_valid
framed_payload_len_valid_lem payload header maximum h = ground arith

length-encode_request :
    (id : ℕ) (m : RpcMethod) (payload : Bytes)
    → length (encode_request id m payload) ≡ length payload + 14
unfolding encode_request
length-encode_request id m payload = omega arith

length-encode_response :
    (id status : ℕ) (payload : Bytes)
    → length (encode_response id status payload) ≡ length payload + 16
unfolding encode_response
length-encode_response id status payload = omega arith

-- The bounded encoders answer exactly when the whole frame fits both the caller's maximum and the
-- largest ring message, and then with the frame.
pub encode_bounded-fits :
    (id status : ℕ) (m : RpcMethod) (payload : Bytes) (maximum : ℕ)
    → (encode_request_bounded id m payload maximum ≡ (
        if leb (length (encode_request id m payload)) (min maximum max_msg_size)
        then some (encode_request id m payload)
        else none))
      × (encode_response_bounded id status payload maximum ≡ (
          if leb (length (encode_response id status payload)) (min maximum max_msg_size)
          then some (encode_response id status payload)
          else none))
unfolding encode_request_bounded encode_response_bounded
encode_bounded-fits id status m payload maximum = (
  rw (length-encode_request, framed_payload_len_valid_lem (length payload) 14 maximum (omega arith))
      (flip (leb (length payload + 14) (min maximum max_msg_size)) (encode_request id m payload)),
  rw
      (
        length-encode_response,
        framed_payload_len_valid_lem (length payload) 16 maximum (omega arith),
      )
      (flip (leb (length payload + 16) (min maximum max_msg_size))
        (encode_response id status payload)),
)
  where
    flip : (b : Bool) (x : Bytes) → (if not b then none else some x) ≡ (if b then some x else none)
    flip true x = refl
    flip false x = refl
