-- ===== src/Rpc/Honest/RoundTrip.antt =====
-- Decoding an honest frame of common/src/rpc/honest.rs gives back what was encoded.
use privasys_enclave_os_mini.Common.{
  ℕ, ==_iff, ◌+◌, ◌^◌, ◌≤◌, ◌<◌, ◌≡◌, refl, sym, ap, ◌∙◌, inl, inr, true, false, some, [], ◌∷◌,
  ◌++◌, arith, ◌==◌, ltb, ltb-false→le, if◌then◌else◌, length, Bool-cases,
}
use privasys_enclave_os_mini.Common.Tests.{and-true}
use privasys_enclave_os_mini.Common.Bytes.{
  Bytes, slice, to_le_bytes, from_le_bytes, from_le_bytes-to_le_bytes,
}
use privasys_enclave_os_mini.Common.Results.{Result-outcome, Result-cases, ok, err}
use privasys_enclave_os_mini.Rpc.Method.{RpcMethod, from_u16, to_u16, from_u16-to_u16, to_u16-lt}
use privasys_enclave_os_mini.Rpc.Honest.{
  RpcRole, control, execution, role_to_u8, role_from_u8, HonestRpcIdentity, has_honest_rpc_magic,
  validate_honest_identity, encode_honest_identity, decode_honest_identity, encode_honest_request,
  decode_honest_request, encode_honest_response, decode_honest_response, decode_honest_response_for,
  identity_eq, unexpected_identity, max_honest_rpc_payload_bytes,
}

pub role_from_u8-role_to_u8 : (r : RpcRole) → role_from_u8 (role_to_u8 r) ≡ some r
unfolding role_from_u8 role_to_u8
role_from_u8-role_to_u8 control = refl
role_from_u8-role_to_u8 execution = refl

-- The numbers of an identity are those of a `u64`.
abbrev pub Fits : HonestRpcIdentity → Type 0
Fits identity =
    (identity.node_id < 2 ^ 64)
    × (identity.node_generation < 2 ^ 64)
    × (identity.operation_id < 2 ^ 64)

decode_honest_identity-fields :
    (encoded : Bytes) (minimum : ℕ) (identity : HonestRpcIdentity)
    → has_honest_rpc_magic encoded ≡ true
    → minimum ≤ length encoded
    → from_le_bytes (slice 4 6 encoded) ≡ 1
    → from_le_bytes (slice 7 8 encoded) ≡ 0
    → from_le_bytes (slice 6 7 encoded) ≡ role_to_u8 identity.role
    → from_le_bytes (slice 8 16 encoded) ≡ identity.node_id
    → from_le_bytes (slice 16 24 encoded) ≡ identity.node_generation
    → from_le_bytes (slice 24 32 encoded) ≡ identity.operation_id
    → from_le_bytes (slice 32 34 encoded) ≡ to_u16 identity.method
    → validate_honest_identity identity ≡ ok tt
    → decode_honest_identity encoded minimum ≡ ok identity
unfolding decode_honest_identity
decode_honest_identity-fields encoded minimum identity m long v z r n g o method valid =
    let t : ltb (length encoded) minimum ≡ false = ground arith in
    rw (
      m,
      t,
      v,
      z,
      r,
      role_from_u8-role_to_u8 identity.role,
      method,
      from_u16-to_u16 identity.method,
      n,
      g,
      o,
      valid,
    )

role_to_u8_byte : (r : RpcRole) → from_le_bytes (role_to_u8 r ∷ []) ≡ role_to_u8 r
role_to_u8_byte r = omega arith

decode_honest_identity-encode :
    (identity : HonestRpcIdentity) (rest : Bytes) (minimum : ℕ)
    → Fits identity
    → validate_honest_identity identity ≡ ok tt
    → minimum ≤ 34 + length rest
    → decode_honest_identity (encode_honest_identity identity ++ rest) minimum ≡ ok identity
unfolding has_honest_rpc_magic
decode_honest_identity-encode identity rest minimum (n, g, o) valid long =
    decode_honest_identity-fields (encode_honest_identity identity ++ rest) minimum identity refl
      (omega arith) refl refl (role_to_u8_byte identity.role)
      (from_le_bytes-to_le_bytes 8 identity.node_id n)
      (from_le_bytes-to_le_bytes 8 identity.node_generation g)
      (from_le_bytes-to_le_bytes 8 identity.operation_id o)
      (from_le_bytes-to_le_bytes 2 (to_u16 identity.method) (to_u16-lt identity.method)) valid

module _ (identity : HonestRpcIdentity) (payload encoded : Bytes) where
  request_encoded :
      encode_honest_request identity payload ≡ ok encoded
      → (validate_honest_identity identity ≡ ok tt)
        × (length payload ≤ 1048576)
        × (encode_honest_identity identity ++ (to_le_bytes 4 (length payload) ++ payload) ≡ encoded)
  unfolding encode_honest_request
  request_encoded h = elim (Result-cases (validate_honest_identity identity)) [
    | inr (e, q) ↦ absurd (cc (rw q at h))
    | inl valid ↦ elim (Bool-cases (ltb max_honest_rpc_payload_bytes (length payload))) [
      | inl over ↦ absurd (cc (rw (valid, over) at h))
      | inr fits ↦ (valid, ltb-false→le _ _ fits, cc (rw (valid, fits) at h))
    ]
  ]

  response_encoded :
      (status : ℕ)
      → encode_honest_response identity status payload ≡ ok encoded
      → (validate_honest_identity identity ≡ ok tt)
        × (length payload ≤ 1048576)
        × (encode_honest_identity identity
              ++ (to_le_bytes 4 status ++ (to_le_bytes 4 (length payload) ++ payload))
            ≡ encoded)
  unfolding encode_honest_response
  response_encoded status h = elim (Result-cases (validate_honest_identity identity)) [
    | inr (e, q) ↦ absurd (cc (rw q at h))
    | inl valid ↦ elim (Bool-cases (ltb max_honest_rpc_payload_bytes (length payload))) [
      | inl over ↦ absurd (cc (rw (valid, over) at h))
      | inr fits ↦ (valid, ltb-false→le _ _ fits, cc (rw (valid, fits) at h))
    ]
  ]

-- For an identity of 64-bit numbers, a request that `encode_honest_request` produces is decoded to
-- its identity and payload.
pub decode_honest_request-encode :
    (identity : HonestRpcIdentity) (payload encoded : Bytes)
    → Fits identity
    → encode_honest_request identity payload ≡ ok encoded
    → decode_honest_request encoded ≡ ok (identity, payload)
unfolding decode_honest_request
decode_honest_request-encode identity payload encoded fit h =
    let (valid, small, e) = request_encoded identity payload encoded h in
    let rest : Bytes = to_le_bytes 4 (length payload) ++ payload in
    let d : decode_honest_identity (encode_honest_identity identity ++ rest) 38 ≡ ok identity =
      decode_honest_identity-encode identity rest 38 fit valid (omega arith) in
    let n : from_le_bytes (to_le_bytes 4 (length payload)) ≡ length payload =
      from_le_bytes-to_le_bytes 4 (length payload) (omega arith) in
    let t1 : ltb max_honest_rpc_payload_bytes (length payload) ≡ false = ground arith in
    let t2 : (length (encode_honest_identity identity ++ rest) == 38 + length payload) ≡ true =
      ground arith in
    ap decode_honest_request (sym e) ∙ rw (d, n, t1, t2)

decode_honest_response-encode :
    (identity : HonestRpcIdentity) (status : ℕ) (payload encoded : Bytes)
    → Fits identity
    → status < 2 ^ 32
    → encode_honest_response identity status payload ≡ ok encoded
    → decode_honest_response encoded ≡ ok (identity, status, payload)
unfolding decode_honest_response
decode_honest_response-encode identity status payload encoded fit word h =
    let (valid, small, e) = response_encoded identity payload encoded status h in
    let rest : Bytes = to_le_bytes 4 status ++ (to_le_bytes 4 (length payload) ++ payload) in
    let d : decode_honest_identity (encode_honest_identity identity ++ rest) 42 ≡ ok identity =
      decode_honest_identity-encode identity rest 42 fit valid (omega arith) in
    let s : from_le_bytes (to_le_bytes 4 status) ≡ status =
      from_le_bytes-to_le_bytes 4 status word in
    let n : from_le_bytes (to_le_bytes 4 (length payload)) ≡ length payload =
      from_le_bytes-to_le_bytes 4 (length payload) (omega arith) in
    let t1 : ltb max_honest_rpc_payload_bytes (length payload) ≡ false = ground arith in
    let t2 : (length (encode_honest_identity identity ++ rest) == 42 + length payload) ≡ true =
      ground arith in
    ap decode_honest_response (sym e) ∙ rw (d, s, n, t1, t2)

-- For an identity of 64-bit numbers and a 32-bit status, a response that `encode_honest_response`
-- produces is decoded to its identity, status and payload if it was expected under that identity,
-- and is refused as unexpected under any other.
pub decode_honest_response_for-encode :
    (identity expected : HonestRpcIdentity) (status : ℕ) (payload encoded : Bytes)
    → Fits identity
    → status < 2 ^ 32
    → encode_honest_response identity status payload ≡ ok encoded
    → decode_honest_response_for encoded expected ≡ (
        if identity_eq identity expected
        then ok (identity, status, payload)
        else err unexpected_identity)
unfolding decode_honest_response_for
decode_honest_response_for-encode identity expected status payload encoded fit word h =
    let d : decode_honest_response encoded ≡ ok (identity, status, payload) =
      decode_honest_response-encode identity status payload encoded fit word h in
    elim (Bool-cases (identity_eq identity expected)) [ inl e ↦ rw (d, e) | inr e ↦ rw (d, e) ]

role_injective : (a b : RpcRole) → role_to_u8 a ≡ role_to_u8 b → a ≡ b
role_injective a b e = cc (role_from_u8-role_to_u8 a, role_from_u8-role_to_u8 b, ap role_from_u8 e)

method_injective : (a b : RpcMethod) → to_u16 a ≡ to_u16 b → a ≡ b
method_injective a b e = cc (from_u16-to_u16 a, from_u16-to_u16 b, ap from_u16 e)

identity_eq-true : (a b : HonestRpcIdentity) → identity_eq a b ≡ true → a ≡ b
unfolding identity_eq
identity_eq-true a b h =
    let (role, h1) = and-true _ _ h in
    let (node, h2) = and-true _ _ h1 in
    let (generation, h3) = and-true _ _ h2 in
    let (operation, method) = and-true _ _ h3 in
    same a b (role_injective a.role b.role ((==_iff _ _).0 role)) ((==_iff _ _).0 node)
      ((==_iff _ _).0 generation) ((==_iff _ _).0 operation)
      (method_injective a.method b.method ((==_iff _ _).0 method))
  where
    same :
        (a b : HonestRpcIdentity)
        → a.role ≡ b.role
        → a.node_id ≡ b.node_id
        → a.node_generation ≡ b.node_generation
        → a.operation_id ≡ b.operation_id
        → a.method ≡ b.method
        → a ≡ b
    same a b r n g o m = λ i. record {
      role = r i;
      node_id = n i;
      node_generation = g i;
      operation_id = o i;
      method = m i;
    }

-- Whatever the bytes, a response is accepted only under the identity that was expected.
pub decode_honest_response_for-expected :
    (encoded : Bytes) (expected : HonestRpcIdentity) (response : HonestRpcIdentity × ℕ × Bytes)
    → decode_honest_response_for encoded expected ≡ ok response
    → response.0 ≡ expected
unfolding decode_honest_response_for
decode_honest_response_for-expected encoded expected response h =
    elim (Result-outcome (decode_honest_response encoded)) [
      | inr (e, q) ↦ absurd (cc (rw q at h))
      | inl (r, q) ↦ elim (Bool-cases (identity_eq r.0 expected)) [
        | inr other ↦ absurd (cc (rw (q, other) at h))
        | inl same ↦
            let e : r ≡ response = cc (rw (q, same) at h) in
            ap (λ x. x.0) (sym e) ∙ identity_eq-true r.0 expected same
      ]
    ]
