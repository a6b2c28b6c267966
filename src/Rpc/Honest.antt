-- ===== src/Rpc/Honest.antt =====
-- The role-owned envelope of common/src/rpc/honest.rs: its identities, frames and codecs. An `i32`
-- status stands here by its two's complement, a number below `2 ^ 32`.
pub mod RoundTrip
use privasys_enclave_os_mini.Common.{
  ℕ, ◌+◌, ◌*◌, Bool, true, false, not, ◌&&◌, ◌||◌, Option, none, some, List, [], ◌∷◌, ◌++◌, ◌==◌,
  leb, ltb, if◌then◌else◌, length, drop, take,
}
use privasys_enclave_os_mini.Common.Bytes.{Bytes, slice, to_le_bytes, from_le_bytes}
use privasys_enclave_os_mini.Common.Results.{Result, ok, err, ◌>>=◌, ◌>>◌, refuse_if, ok_or}
use privasys_enclave_os_mini.Rpc.Method.{
  RpcMethod, to_u16, from_u16, kv_put_durable, net_tcp_connect, net_send, net_recv, net_close,
  worker_storage,
}

abbrev pub honest_rpc_profile_version : ℕ
honest_rpc_profile_version = 1

abbrev pub max_honest_rpc_payload_bytes : ℕ
max_honest_rpc_payload_bytes = 1024 * 1024

abbrev pub honest_req_header_size : ℕ
honest_req_header_size = 38

abbrev pub honest_resp_header_size : ℕ
honest_resp_header_size = 42

pub data RpcRole : Type 0 where
  control execution : RpcRole

-- `role as u8`
unfoldable pub role_to_u8 : RpcRole → ℕ
role_to_u8 control = 1
role_to_u8 execution = 2

unfoldable pub role_from_u8 : ℕ → Option RpcRole
role_from_u8 value =
    if value == 1 then some control else if value == 2 then some execution else none

pub record HonestRpcIdentity : Type 0 where
  pub role : RpcRole
  pub node_id : ℕ
  pub node_generation : ℕ
  pub operation_id : ℕ
  pub method : RpcMethod

pub data HonestRpcFrameError : Type 0 where
  not_honest_frame malformed unsupported_profile invalid_role : HonestRpcFrameError
  invalid_identity unexpected_identity payload_bound : HonestRpcFrameError

-- "HRPC", compared byte by byte
unfoldable pub has_honest_rpc_magic : Bytes → Bool
has_honest_rpc_magic (a ∷ b ∷ c ∷ d ∷ rest) = a == 72 && (b == 82 && (c == 80 && d == 67))
has_honest_rpc_magic _ = false

unfoldable pub validate_honest_identity : HonestRpcIdentity → Result HonestRpcFrameError (Unit {0})
validate_honest_identity identity =
    refuse_if
      (identity.node_id == 0 || (identity.node_generation == 0 || identity.operation_id == 0))
      invalid_identity

-- The 34 bytes that `encode_honest_identity` appends.
abbrev pub encode_honest_identity : HonestRpcIdentity → Bytes
encode_honest_identity identity =
    (72 ∷ 82 ∷ 80 ∷ 67 ∷ [])
    ++ (to_le_bytes 2 honest_rpc_profile_version
        ++ (role_to_u8 identity.role
            ∷ 0
            ∷ (to_le_bytes 8 identity.node_id
                ++ (to_le_bytes 8 identity.node_generation
                    ++ (to_le_bytes 8 identity.operation_id
                        ++ to_le_bytes 2 (to_u16 identity.method))))))

unfoldable pub decode_honest_identity :
    Bytes → (minimum_length : ℕ) → Result HonestRpcFrameError HonestRpcIdentity
decode_honest_identity encoded minimum_length = do
  refuse_if (not (has_honest_rpc_magic encoded)) not_honest_frame
  refuse_if (ltb (length encoded) minimum_length) malformed
  refuse_if (not (from_le_bytes (slice 4 6 encoded) == honest_rpc_profile_version))
      unsupported_profile
  refuse_if (not (from_le_bytes (slice 7 8 encoded) == 0)) malformed
  role ← ok_or (role_from_u8 (from_le_bytes (slice 6 7 encoded))) invalid_role
  method ← ok_or (from_u16 (from_le_bytes (slice 32 34 encoded))) malformed
  let identity : HonestRpcIdentity = record {
    role = role;
    node_id = from_le_bytes (slice 8 16 encoded);
    node_generation = from_le_bytes (slice 16 24 encoded);
    operation_id = from_le_bytes (slice 24 32 encoded);
    method = method;
  }
  validate_honest_identity identity
  ok identity

unfoldable pub encode_honest_request : HonestRpcIdentity → Bytes → Result HonestRpcFrameError Bytes
encode_honest_request identity payload = do
  validate_honest_identity identity
  refuse_if (ltb max_honest_rpc_payload_bytes (length payload)) payload_bound
  ok (encode_honest_identity identity ++ (to_le_bytes 4 (length payload) ++ payload))

unfoldable pub decode_honest_request :
    Bytes → Result HonestRpcFrameError (HonestRpcIdentity × Bytes)
decode_honest_request encoded = do
  identity ← decode_honest_identity encoded honest_req_header_size
  let payload_length = from_le_bytes (slice 34 38 encoded)
  refuse_if (ltb max_honest_rpc_payload_bytes payload_length) payload_bound
  refuse_if (not (length encoded == honest_req_header_size + payload_length)) malformed
  ok (identity, drop honest_req_header_size encoded)

unfoldable pub encode_honest_response :
    HonestRpcIdentity → (status : ℕ) → Bytes → Result HonestRpcFrameError Bytes
encode_honest_response identity status payload = do
  validate_honest_identity identity
  refuse_if (ltb max_honest_rpc_payload_bytes (length payload)) payload_bound
  ok (
      encode_honest_identity identity
      ++ (to_le_bytes 4 status ++ (to_le_bytes 4 (length payload) ++ payload)))

unfoldable pub decode_honest_response :
    Bytes → Result HonestRpcFrameError (HonestRpcIdentity × ℕ × Bytes)
decode_honest_response encoded = do
  identity ← decode_honest_identity encoded honest_resp_header_size
  let status = from_le_bytes (slice 34 38 encoded)
  let payload_length = from_le_bytes (slice 38 42 encoded)
  refuse_if (ltb max_honest_rpc_payload_bytes payload_length) payload_bound
  refuse_if (not (length encoded == honest_resp_header_size + payload_length)) malformed
  ok (identity, status, drop honest_resp_header_size encoded)

-- `HonestRpcIdentity`'s derived equality
unfoldable pub identity_eq : HonestRpcIdentity → HonestRpcIdentity → Bool
identity_eq a b =
    role_to_u8 a.role == role_to_u8 b.role
    && (a.node_id == b.node_id
        && (a.node_generation == b.node_generation
            && (a.operation_id == b.operation_id && to_u16 a.method == to_u16 b.method)))

unfoldable pub decode_honest_response_for :
    Bytes → HonestRpcIdentity → Result HonestRpcFrameError (HonestRpcIdentity × ℕ × Bytes)
decode_honest_response_for encoded expected = do
  response ← decode_honest_response encoded
  refuse_if (not (identity_eq response.0 expected)) unexpected_identity
  ok response

unfoldable pub honest_role_allows_method : RpcRole → RpcMethod → Bool
honest_role_allows_method control kv_put_durable = true
honest_role_allows_method execution net_tcp_connect = true
honest_role_allows_method execution net_send = true
honest_role_allows_method execution net_recv = true
honest_role_allows_method execution net_close = true
honest_role_allows_method execution worker_storage = true
honest_role_allows_method _ _ = false
