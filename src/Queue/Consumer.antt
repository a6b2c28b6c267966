-- ===== src/Queue/Consumer.antt =====
-- `SpscConsumer` of common/src/queue.rs.
use privasys_enclave_os_mini.Common.{
  ℕ, ◌+◌, min, Bool, ◌||◌, Option, none, some, List, [], ◌∷◌, ◌++◌, ltb, leb, if◌then◌else◌, length,
  drop,
}
use privasys_enclave_os_mini.Common.Bytes.{Bytes, from_le_bytes}
use privasys_enclave_os_mini.Common.Words.{wrapping_add, wrapping_sub}
use privasys_enclave_os_mini.Queue.Capacity.{
  msg_header_size, max_message_bytes, shared_queue_capacity_valid,
}
use privasys_enclave_os_mini.Queue.Ring.{Ring, read_bytes}

pub record SpscConsumer : Type 0 where
  pub capacity : ℕ

unfoldable pub from_raw_with_capacity : ℕ → Option SpscConsumer
from_raw_with_capacity capacity =
    if shared_queue_capacity_valid capacity then some (record { capacity = capacity }) else none

unfoldable pub from_raw : Ring → Option SpscConsumer
unfolding from_raw_with_capacity
from_raw ring = from_raw_with_capacity ring.capacity

abbrev pub with_tail : Ring → ℕ → Ring
with_tail ring tail = record ring { header = record ring.header { tail = tail } }

-- The position and the length of the next complete frame. `local` is the address of `len_bytes`.
unfoldable pub readable_frame : SpscConsumer → (local : ℕ) → Ring → Option (ℕ × ℕ) × Ring
readable_frame c local ring =
    let avail = wrapping_sub ring.head ring.tail in
    let len_bytes = read_bytes c.capacity ring.base local ring.tail msg_header_size ring.memory in
    let msg_len = from_le_bytes len_bytes in
    let total = msg_header_size + msg_len in
    if ltb c.capacity avail
    then (none, ring)
    else if ltb avail msg_header_size
    then (none, ring)
    else if ltb (max_message_bytes c.capacity) msg_len
    then (none, with_tail ring (wrapping_add ring.tail msg_header_size))
    else if ltb c.capacity total || ltb avail total
    then (none, ring)
    else (some (ring.tail, msg_len), ring)

unfoldable pub consume_frame : Ring → ℕ → ℕ → Ring
consume_frame ring tail len = with_tail ring (wrapping_add (wrapping_add tail msg_header_size) len)

-- The payload of the frame at `tail`, its first `n` bytes.
unfoldable pub payload : SpscConsumer → (to : ℕ) → Ring → ℕ → ℕ → Bytes
payload c to ring tail n =
    read_bytes c.capacity ring.base to (wrapping_add tail msg_header_size) n ring.memory

-- `Result<Option<usize>, usize>`
pub data IntoResult : Type 0 where
  empty : IntoResult
  received : ℕ → IntoResult
  too_short : ℕ → IntoResult

-- What `try_recv_into` does with the next frame.
abbrev pub deliver_into :
    SpscConsumer → (to : ℕ) → Bytes → Option (ℕ × ℕ) × Ring → IntoResult × Bytes × Ring
deliver_into c to output (none, ring) = (empty, output, ring)
deliver_into c to output (some (tail, len), ring) =
    if ltb (length output) len
    then (too_short len, output, ring)
    else (received len, payload c to ring tail len ++ drop len output, consume_frame ring tail len)

-- The caller's storage `output`, at the address `to`, comes back with the copied bytes.
unfoldable pub try_recv_into :
    SpscConsumer → (local to : ℕ) → Ring → Bytes → IntoResult × Bytes × Ring
try_recv_into c local to ring output = deliver_into c to output (readable_frame c local ring)

-- `Result<Option<B>, E>` of the owner, with `B` a buffer
pub data Owned {ℓ} (E : Type ℓ) : Type ℓ where
  refused : E → Owned E
  discard : Owned E
  buffer : Bytes → Owned E

-- `Result<Option<B>, ReceiveOwnerError<E>>`
pub data WithResult {ℓ} (E : Type ℓ) : Type ℓ where
  nothing : WithResult E
  delivered : Bytes → WithResult E
  owner_error : E → WithResult E
  owner_too_short : WithResult E

module _ {ℓ} {E : Type ℓ} where
  -- What is done with the owner's answer: `get_mut(..length)` fails on a short buffer.
  abbrev pub fill_owned : Owned E → ℕ → (ℕ → Bytes) → WithResult E
  fill_owned (refused e) len read = owner_error e
  fill_owned discard len read = nothing
  fill_owned (buffer b) len read =
      if leb len (length b) then delivered (read len ++ drop len b) else owner_too_short

  abbrev pub deliver_with :
      SpscConsumer
      → (prefix local to : ℕ) → (ℕ → Bytes → Owned E)
      → Option (ℕ × ℕ) × Ring
      → WithResult E × Ring
  deliver_with c prefix local to owner (none, ring) = (nothing, ring)
  deliver_with c prefix local to owner (some (tail, len), ring) = (
    fill_owned (owner len (payload c local ring tail (min len prefix))) len
        (payload c to ring tail),
    consume_frame ring tail len,
  )

  unfoldable pub try_recv_with :
      SpscConsumer → (prefix local to : ℕ) → (ℕ → Bytes → Owned E) → Ring → WithResult E × Ring
  try_recv_with c prefix local to owner ring =
      deliver_with c prefix local to owner (readable_frame c local ring)

abbrev pub deliver : SpscConsumer → (to : ℕ) → Option (ℕ × ℕ) × Ring → Option Bytes × Ring
deliver c to (none, ring) = (none, ring)
deliver c to (some (tail, len), ring) =
    (some (payload c to ring tail len), consume_frame ring tail len)

unfoldable pub try_recv : SpscConsumer → (local to : ℕ) → Ring → Option Bytes × Ring
try_recv c local to ring = deliver c to (readable_frame c local ring)

-- The loop of `recv`, with what the other side does before each retry; `none` while it still spins.
unfoldable pub recv :
    SpscConsumer → (local to : ℕ) → List (Ring → Ring) → Ring → Option Bytes × Ring
recv c local to [] ring = try_recv c local to ring
recv c local to (other ∷ others) ring =
    let (msg, ring') = try_recv c local to ring in
    elim msg [ none ↦ recv c local to others (other ring') | some m ↦ (some m, ring') ]

unfoldable pub is_empty : Ring → Bool
is_empty ring = ltb (wrapping_sub ring.head ring.tail) msg_header_size
