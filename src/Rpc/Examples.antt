-- ===== src/Rpc/Examples.antt =====
-- The theorems on common/src/rpc.rs and common/src/rpc/honest.rs at concrete messages.
use privasys_enclave_os_mini.Common.{
  ◌+◌, min, ◌≡◌, refl, none, some, [], ◌∷◌, ◌++◌, arith, leb, if◌then◌else◌, length, drop,
}
use privasys_enclave_os_mini.Common.Bytes.{Bytes}
use privasys_enclave_os_mini.Common.Results.{ok, err}
use privasys_enclave_os_mini.Queue.Capacity.{max_msg_size}
use privasys_enclave_os_mini.Rpc.Method.{kv_get, net_send, to_u16}
use privasys_enclave_os_mini.Rpc.Frame.{
  encode_request, encode_response, decode_request, decode_response,
  encode_request_parts_into_bounded,
}
use privasys_enclave_os_mini.Rpc.Frame.RoundTrip.{
  decode_request-encode_request, decode_response-encode_response,
}
use privasys_enclave_os_mini.Rpc.Frame.Parts.{concat, encode_request_parts_lem}
use privasys_enclave_os_mini.Rpc.Honest.{
  HonestRpcIdentity, execution, encode_honest_identity, encode_honest_request,
  encode_honest_response, decode_honest_request, decode_honest_response_for,
  validate_honest_identity, identity_eq, role_to_u8, unexpected_identity,
}
use privasys_enclave_os_mini.Rpc.Honest.RoundTrip.{
  decode_honest_response_for-expected, decode_honest_request-encode,
  decode_honest_response_for-encode,
}

abbrev msg : Bytes
msg = 7 ∷ 8 ∷ 9 ∷ []

decode_request-encode_request_example :
    decode_request (encode_request 5 kv_get msg ++ msg) ≡ some (5, kv_get, msg)
decode_request-encode_request_example =
    decode_request-encode_request 5 kv_get msg msg (omega arith) (omega arith)

decode_response-encode_response_example :
    decode_response (encode_response 5 4294967295 msg ++ msg) ≡ some (5, 4294967295, msg)
decode_response-encode_response_example =
    decode_response-encode_response 5 4294967295 msg msg (omega arith) (omega arith) (omega arith)

abbrev storage : Bytes
storage = msg ++ (msg ++ (msg ++ (msg ++ (msg ++ (msg ++ (msg ++ msg))))))

encode_request_parts_lem_example :
    encode_request_parts_into_bounded 5 kv_get (msg ∷ [] ∷ msg ∷ []) 100 storage ≡ (
      if leb
        (14 + length (concat (msg ∷ [] ∷ msg ∷ [])))
        (min (length storage) (min 100 max_msg_size))
      then some (
        14 + length (concat (msg ∷ [] ∷ msg ∷ [])),
        encode_request 5 kv_get (concat (msg ∷ [] ∷ msg ∷ []))
            ++ drop (14 + length (concat (msg ∷ [] ∷ msg ∷ []))) storage,
      )
      else none)
encode_request_parts_lem_example =
    encode_request_parts_lem 5 kv_get (msg ∷ [] ∷ msg ∷ []) 100 storage (omega arith)

abbrev identity : HonestRpcIdentity
identity = record {
  role = execution;
  node_id = 1;
  node_generation = 2;
  operation_id = 3;
  method = net_send;
}

abbrev other : HonestRpcIdentity
other = record identity { operation_id = 4 }

abbrev request : Bytes
request = encode_honest_identity identity ++ (3 ∷ 0 ∷ 0 ∷ 0 ∷ msg)

abbrev response : Bytes
response = encode_honest_identity identity ++ (9 ∷ 0 ∷ 0 ∷ 0 ∷ 3 ∷ 0 ∷ 0 ∷ 0 ∷ msg)

requested : encode_honest_request identity msg ≡ ok request
unfolding encode_honest_request validate_honest_identity
requested = refl

responded : encode_honest_response identity 9 msg ≡ ok response
unfolding encode_honest_response validate_honest_identity
responded = refl

decode_honest_request-encode_example : decode_honest_request request ≡ ok (identity, msg)
decode_honest_request-encode_example =
    decode_honest_request-encode identity msg request (omega arith, omega arith, omega arith)
      requested

decode_honest_response_for-encode_example :
    decode_honest_response_for response other
    ≡ (if identity_eq identity other then ok (identity, 9, msg) else err unexpected_identity)
decode_honest_response_for-encode_example =
    decode_honest_response_for-encode identity other 9 msg response
      (omega arith, omega arith, omega arith) (omega arith) responded

accepted : decode_honest_response_for response identity ≡ ok (identity, 9, msg)
unfolding identity_eq role_to_u8 to_u16
accepted =
    decode_honest_response_for-encode identity identity 9 msg response
      (omega arith, omega arith, omega arith) (omega arith) responded

decode_honest_response_for-expected_example : identity ≡ identity
decode_honest_response_for-expected_example =
    decode_honest_response_for-expected response identity (identity, 9, msg) accepted
