-- ===== src/Queue/Capacity.antt =====
-- Capacities of common/src/queue.rs: the constants, their checks, and the header's geometry.
use privasys_enclave_os_mini.Common.{
  ℕ, zero, suc, ◌+◌, ◌-◌, ◌*◌, ◌%◌, ◌^◌, ◌≤◌, ◌<◌, bit_and, ◌≡◌, Bool, true, false, ◌&&◌, ◌||◌,
  Option, none, some, arith, ltb, leb, ◌==◌, if◌then◌else◌, Bool-cases, inl, inr, ==_iff,
}
use privasys_enclave_os_mini.Common.{not}
use privasys_enclave_os_mini.Common.Words.{u64_modulus, wrapping_sub, bit_and_mask, pow_dvd}
use native.Mathlib.Decide.{dec_le}
use native.Mathlib.Nat.{pow-le-pow_right, mod-mod_of_dvd}

abbrev pub msg_header_size : ℕ
msg_header_size = 4

abbrev pub default_queue_capacity : ℕ
default_queue_capacity = 2 * 1024 * 1024

abbrev pub min_shared_queue_capacity : ℕ
min_shared_queue_capacity = 4096

abbrev pub max_shared_queue_capacity : ℕ
max_shared_queue_capacity = 16 * 1024 * 1024

abbrev pub max_ring_frame_bytes : ℕ
max_ring_frame_bytes = 4 * 1024 * 1024

abbrev pub max_msg_size : ℕ
max_msg_size = max_ring_frame_bytes - msg_header_size

-- One of the powers of two below `2 ^ n`; `u64::is_power_of_two` is the case of 64.
unfoldable pub is_power_below : ℕ → ℕ → Bool
is_power_below zero c = false
is_power_below (suc n) c = (c == 2 ^ n) || is_power_below n c

unfoldable pub is_power_of_two : ℕ → Bool
is_power_of_two c = is_power_below 64 c

unfoldable pub shared_queue_capacity_valid : ℕ → Bool
shared_queue_capacity_valid capacity =
    is_power_of_two capacity
    && leb min_shared_queue_capacity capacity
    && leb capacity max_shared_queue_capacity

-- `saturating_sub` is the truncated subtraction.
unfoldable pub max_message_bytes : ℕ → ℕ
max_message_bytes capacity =
    let frame = if ltb capacity max_ring_frame_bytes then capacity else max_ring_frame_bytes in
    frame - msg_header_size

-- A capacity that the checks accept, as the arithmetic that the ring relies on.
pub record IsCapacity (c : ℕ) : Type 0 where
  pub exponent : ℕ
  pub power : c ≡ 2 ^ exponent
  pub least : 4096 ≤ c
  pub greatest : c ≤ max_shared_queue_capacity

is_power_below-power : (n c : ℕ) → is_power_below n c ≡ true → (k : ℕ) × (c ≡ 2 ^ k)
unfolding is_power_below
is_power_below-power zero c h = absurd (ground arith)
is_power_below-power (suc n) c h = elim (Bool-cases (c == 2 ^ n)) [
  | inl e ↦ (n, (==_iff c (2 ^ n)).0 e)
  | inr ne ↦ is_power_below-power n c (ground arith)
]

valid_parts :
    (c : ℕ)
    → shared_queue_capacity_valid c ≡ true
    → (is_power_of_two c ≡ true) × (4096 ≤ c) × (c ≤ max_shared_queue_capacity)
unfolding shared_queue_capacity_valid
valid_parts c h = ground arith

is_power_of_two-power : (c : ℕ) → is_power_of_two c ≡ true → (k : ℕ) × (c ≡ 2 ^ k)
unfolding is_power_of_two
is_power_of_two-power c h = is_power_below-power 64 c h

-- A capacity that the check accepts is a power of two between 4 KiB and 16 MiB.
pub valid-IsCapacity : (c : ℕ) → shared_queue_capacity_valid c ≡ true → IsCapacity c
valid-IsCapacity c h =
    let (p, l, g) = valid_parts c h in
    let (k, e) = is_power_of_two-power c p in
    record { exponent = k; power = e; least = l; greatest = g }

module _ {c : ℕ} (v : IsCapacity c) where
  exponent_small : v.exponent ≤ 24
  exponent_small = elim (dec_le v.exponent 24) [
    | yes h ↦ h
    | no n ↦ absurd (
        omega (
          arith,
          v.power,
          v.greatest,
          pow-le-pow_right {n = 2} (omega arith) {i = 25} {j = v.exponent} (omega arith),
        ))
  ]

  -- The ring's positions are `u64`s, and wrapping one does not move it in the ring.
  pub wrap-mod : (x : ℕ) → x % u64_modulus % c ≡ x % c
  wrap-mod x =
      mod-mod_of_dvd c x (rw v.power (pow_dvd v.exponent 64 (omega (arith, exponent_small))))

  -- `x & (capacity - 1)` is the index of position `x`.
  pub mask_mod : (x : ℕ) → bit_and x (c - 1) ≡ x % c
  mask_mod x = rw v.power (bit_and_mask v.exponent x)

-- A complete frame of the largest message fits the ring.
pub max_message_bytes-bounds :
    {c : ℕ} → IsCapacity c → (max_message_bytes c + 4 ≤ c) × (max_message_bytes c < 2 ^ 32)
unfolding max_message_bytes
max_message_bytes-bounds {c} v = ground (arith, v.least, v.greatest)

-- `SpscQueueHeader`: its positions and capacity, without the padding.
pub record SpscQueueHeader : Type 0 where
  pub head : ℕ
  pub tail : ℕ
  pub capacity : ℕ

-- `SpscQueueHeader::new`; `none` is a failed assertion.
unfoldable pub new : ℕ → Option SpscQueueHeader
new capacity =
    if not (is_power_of_two capacity)
    then none
    else if ltb capacity min_shared_queue_capacity
    then none
    else if not (shared_queue_capacity_valid capacity)
    then none
    else some (record { head = 0; tail = 0; capacity = capacity })

unfoldable pub mask : SpscQueueHeader → ℕ → ℕ
mask header pos = bit_and pos (header.capacity - 1)

unfoldable pub available_read : SpscQueueHeader → ℕ
available_read header = wrapping_sub header.head header.tail

-- The outer `-` is the unchecked one of a release build, which wraps.
unfoldable pub available_write : SpscQueueHeader → ℕ
available_write header = wrapping_sub header.capacity (wrapping_sub header.head header.tail)

-- A new header has a valid capacity and both positions at zero.
pub new_lem :
    (c : ℕ) {header : SpscQueueHeader}
    → new c ≡ some header
    → (shared_queue_capacity_valid c ≡ true)
      × (header.head ≡ 0)
      × (header.tail ≡ 0)
      × (header.capacity ≡ c)
unfolding new
new_lem c e = ground arith
