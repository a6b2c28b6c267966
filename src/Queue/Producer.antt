-- ===== src/Queue/Producer.antt =====
-- `SpscProducer` of common/src/queue.rs.
use privasys_enclave_os_mini.Common.{
  ℕ, ◌+◌, ◌-◌, Bool, not, Option, none, some, List, [], ◌∷◌, ltb, leb, if◌then◌else◌, length,
}
use privasys_enclave_os_mini.Common.Bytes.{Bytes, to_le_bytes}
use privasys_enclave_os_mini.Common.Words.{wrapping_add, wrapping_sub}
use privasys_enclave_os_mini.Queue.Capacity.{
  msg_header_size, max_message_bytes, shared_queue_capacity_valid,
}
use privasys_enclave_os_mini.Queue.Ring.{Ring, write_bytes}

-- The handle's pointers are the `Ring` that each method takes.
pub record SpscProducer : Type 0 where
  pub capacity : ℕ

-- `Result<(), SendRefused>`
pub data SendResult : Type 0 where
  sent refused : SendResult

-- `none` is the failed assertion.
unfoldable pub from_raw_with_capacity : ℕ → Option SpscProducer
from_raw_with_capacity capacity =
    if shared_queue_capacity_valid capacity then some (record { capacity = capacity }) else none

unfoldable pub from_raw : Ring → Option SpscProducer
unfolding from_raw_with_capacity
from_raw ring = from_raw_with_capacity ring.capacity

unfoldable pub diagnostic_positions : Ring → ℕ × ℕ
diagnostic_positions ring = (ring.head, ring.tail)

unfoldable pub message_len_valid : SpscProducer → ℕ → Bool
message_len_valid p bytes = leb bytes (max_message_bytes p.capacity)

-- The writes of `try_send` once the checks have passed. `local` is the address of `len_bytes`, `from`
-- that of the message. A release build wraps the sums.
unfoldable pub publish : SpscProducer → (local from : ℕ) → Ring → Bytes → Ring
publish p local from ring msg =
    let framed =
      write_bytes p.capacity ring.base local ring.head (to_le_bytes 4 (length msg)) ring.memory in
    let filled =
      write_bytes p.capacity ring.base from (wrapping_add ring.head msg_header_size) msg framed in
    record ring {
      memory = filled;
      header = record ring.header { head = wrapping_add ring.head (msg_header_size + length msg) };
    }

unfoldable pub try_send : SpscProducer → (local from : ℕ) → Ring → Bytes → SendResult × Ring
try_send p local from ring msg =
    let total = msg_header_size + length msg in
    let used = wrapping_sub ring.head ring.tail in
    let free = p.capacity - used in
    if not (message_len_valid p (length msg))
    then (refused, ring)
    else if ltb p.capacity used
    then (refused, ring)
    else if ltb free total
    then (refused, ring)
    else (sent, publish p local from ring msg)

-- The loop of `send_bounded`. `others` is what the other side does to the ring before each retry; the
-- result is `none` while the loop still spins when that list ends.
unfoldable pub send_loop :
    SpscProducer → (local from : ℕ) → List (Ring → Ring) → Ring → Bytes → Option SendResult × Ring
send_loop p local from [] ring msg =
    let (result, ring') = try_send p local from ring msg in
    elim result [ sent ↦ (some sent, ring') | refused ↦ (none, ring') ]
send_loop p local from (other ∷ others) ring msg =
    let (result, ring') = try_send p local from ring msg in
    elim result [
      | sent ↦ (some sent, ring')
      | refused ↦ send_loop p local from others (other ring') msg
    ]

unfoldable pub send_bounded :
    SpscProducer → (local from : ℕ) → List (Ring → Ring) → Ring → Bytes → Option SendResult × Ring
send_bounded p local from others ring msg =
    if not (message_len_valid p (length msg))
    then (some refused, ring)
    else send_loop p local from others ring msg
