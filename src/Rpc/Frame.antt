-- ===== src/Rpc/Frame.antt =====
-- The request and response frames of common/src/rpc.rs, and their codecs. An `i32` status stands here
-- by its two's complement, a number below `2 ^ 32`.
pub mod RoundTrip
pub mod Parts
use privasys_enclave_os_mini.Common.{
  ℕ, ◌+◌, ◌-◌, ◌^◌, min, Bool, not, ◌&&◌, Option, none, some, List, [], ◌∷◌, ◌++◌, leb, ltb,
  if◌then◌else◌, length, take, drop,
}
use privasys_enclave_os_mini.Common.Bytes.{Bytes, slice, to_le_bytes, from_le_bytes}
use privasys_enclave_os_mini.Common.Options.{◌>>=◌, ◌>>◌, none_if}
use privasys_enclave_os_mini.Queue.Capacity.{max_msg_size}
use privasys_enclave_os_mini.Rpc.Method.{RpcMethod, to_u16, from_u16}

abbrev pub req_header_size : ℕ
req_header_size = 14

abbrev pub resp_header_size : ℕ
resp_header_size = 16

abbrev pub u32_max : ℕ
u32_max = 2 ^ 32 - 1

-- `checked_add` on `usize`
abbrev pub checked_add : ℕ → ℕ → Option ℕ
checked_add a b = if ltb (a + b) (2 ^ 64) then some (a + b) else none

-- `is_some_and`
abbrev pub is_some_and : Option ℕ → (ℕ → Bool) → Bool
is_some_and none p = Bool.false
is_some_and (some a) p = p a

unfoldable pub framed_payload_len_valid : (payload header message_maximum : ℕ) → Bool
framed_payload_len_valid payload header message_maximum =
    leb payload u32_max
    && is_some_and (checked_add payload header)
        (λ bytes. leb bytes (min message_maximum max_msg_size))

-- The 14 bytes that `write_request_header` fills.
abbrev pub request_header : ℕ → RpcMethod → ℕ → Bytes
request_header req_id method payload_len =
    to_le_bytes 8 req_id ++ (to_le_bytes 2 (to_u16 method) ++ to_le_bytes 4 payload_len)

unfoldable pub encode_request : ℕ → RpcMethod → Bytes → Bytes
encode_request req_id method payload = request_header req_id method (length payload) ++ payload

unfoldable pub encode_request_bounded : ℕ → RpcMethod → Bytes → ℕ → Option Bytes
encode_request_bounded req_id method payload message_maximum =
    if not (framed_payload_len_valid (length payload) req_header_size message_maximum)
    then none
    else some (encode_request req_id method payload)

unfoldable pub encode_response : (req_id status : ℕ) → Bytes → Bytes
encode_response req_id status payload =
    to_le_bytes 8 req_id ++ (to_le_bytes 4 status ++ (to_le_bytes 4 (length payload) ++ payload))

unfoldable pub encode_response_bounded : (req_id status : ℕ) → Bytes → ℕ → Option Bytes
encode_response_bounded req_id status payload message_maximum =
    if not (framed_payload_len_valid (length payload) resp_header_size message_maximum)
    then none
    else some (encode_response req_id status payload)

unfoldable pub decode_request : Bytes → Option (ℕ × RpcMethod × Bytes)
decode_request bytes = do
  none_if (ltb (length bytes) req_header_size)
  let req_id = from_le_bytes (slice 0 8 bytes)
  let method_raw = from_le_bytes (slice 8 10 bytes)
  let payload_len = from_le_bytes (slice 10 14 bytes)
  method ← from_u16 method_raw
  none_if (ltb (length bytes) (req_header_size + payload_len))
  some (req_id, method, slice req_header_size (req_header_size + payload_len) bytes)

-- The payload's range comes back as its two ends.
unfoldable pub decode_response_header : Bytes → ℕ → Option (ℕ × ℕ × ℕ × ℕ)
decode_response_header header frame_length = do
  none_if (ltb (length header) resp_header_size)
  none_if (ltb frame_length resp_header_size)
  let request = from_le_bytes (slice 0 8 header)
  let status = from_le_bytes (slice 8 12 header)
  let len = from_le_bytes (slice 12 16 header)
  end ← checked_add resp_header_size len
  if leb end frame_length then some (request, status, resp_header_size, end) else none

unfoldable pub decode_response : Bytes → Option (ℕ × ℕ × Bytes)
decode_response bytes = do
  (request, status, start, end) ← decode_response_header bytes (length bytes)
  some (request, status, slice start end bytes)

-- `try_fold` of `checked_add` over the parts' lengths
unfoldable pub parts_len : ℕ → List Bytes → Option ℕ
parts_len total [] = some total
parts_len total (part ∷ parts) =
    checked_add total (length part) >>= λ total'. parts_len total' parts

-- `output[at..at + bytes.len()].copy_from_slice(bytes)`
abbrev pub splice : ℕ → Bytes → Bytes → Bytes
splice at bytes output = take at output ++ (bytes ++ drop (at + length bytes) output)

-- The copying loop of `encode_request_parts_into_bounded`.
unfoldable pub copy_parts : ℕ → List Bytes → Bytes → Option Bytes
copy_parts position [] output = some output
copy_parts position (part ∷ parts) output =
    checked_add position (length part) >>= λ end. copy_parts end parts (splice position part output)

-- The storage `output` comes back beside the length of the frame.
unfoldable pub encode_request_parts_into_bounded :
    ℕ → RpcMethod → List Bytes → ℕ → Bytes → Option (ℕ × Bytes)
encode_request_parts_into_bounded req_id method parts maximum output = do
  payload_len ← parts_len 0 parts
  none_if (not (framed_payload_len_valid payload_len req_header_size maximum))
  len ← checked_add req_header_size payload_len
  none_if (ltb (length output) len)
  none_if (ltb u32_max payload_len)
  filled ←
      copy_parts req_header_size parts (splice 0 (request_header req_id method payload_len) output)
  some (len, filled)
