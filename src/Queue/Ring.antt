-- ===== src/Queue/Ring.antt =====
-- The ring of common/src/queue.rs in host memory, and the byte transfers that go round its end.
pub mod Window
pub mod Transfer
use privasys_enclave_os_mini.Common.{
  ℕ, ◌+◌, ◌-◌, min, bit_and, ◌++◌, ltb, leb, if◌then◌else◌, length, take, drop,
}
use privasys_enclave_os_mini.Common.Bytes.{Bytes}
use privasys_enclave_os_mini.Queue.Capacity.{SpscQueueHeader}
use privasys_enclave_os_mini.Queue.Memory.{Memory, copy_to_shared, copy_from_shared}

-- What the pointers `header` and `buf_ptr` of an endpoint stand for: the shared header, the address
-- of the buffer, and the memory from that address on.
pub record Ring : Type 0 where
  pub header : SpscQueueHeader
  pub open header use *
  pub base : ℕ
  pub memory : Memory

-- `SpscProducer::write_bytes`, at the buffer `base`, of the data that stands at address `from`
pub write_bytes : (capacity base from offset : ℕ) → Bytes → Memory → Memory
write_bytes capacity base from offset bytes m =
    let start = bit_and offset (capacity - 1) in
    let first = min (length bytes) (capacity - start) in
    let m' = copy_to_shared base from (take first bytes) start m in
    if ltb first (length bytes)
    then copy_to_shared base (from + first) (drop first bytes) 0 m'
    else m'

-- `SpscConsumer::read_bytes`, of `n` bytes into the storage at address `to`
pub read_bytes : (capacity base to offset n : ℕ) → Memory → Bytes
read_bytes capacity base to offset n m =
    let start = bit_and offset (capacity - 1) in
    let end = start + n in
    let first_chunk = capacity - start in
    if leb end capacity
    then copy_from_shared base to start n m
    else copy_from_shared base to start first_chunk m
      ++ copy_from_shared base (to + first_chunk) 0 (n - first_chunk) m
