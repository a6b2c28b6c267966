-- ===== src/Queue/Safety.antt =====
-- What the endpoints of common/src/queue.rs keep to over a header and a buffer that the host may have
-- filled with anything.
use privasys_enclave_os_mini.Common.{
  ℕ, ◌+◌, ◌≤◌, ◌<◌, ◌≡◌, refl, sym, ap, ◌∙◌, Option, none, some, arith, length,
}
use privasys_enclave_os_mini.Common.Bytes.{Bytes}
use privasys_enclave_os_mini.Common.Bytes.{to_le_bytes}
use privasys_enclave_os_mini.Common.Words.{wrapping_add}
use mathlib.Core.Path.{ap₂}
use privasys_enclave_os_mini.Queue.Capacity.{
  IsCapacity, max_message_bytes, max_message_bytes-bounds,
}
use privasys_enclave_os_mini.Queue.Memory.{Memory}
use privasys_enclave_os_mini.Queue.Ring.{Ring, read_bytes}
use privasys_enclave_os_mini.Queue.Ring.Window.{length-window, put-outside, window-agree}
use privasys_enclave_os_mini.Queue.Ring.Transfer.{write_bytes-put, read_bytes-window}
use privasys_enclave_os_mini.Queue.Producer.{refused, try_send, publish, message_len_valid}
use privasys_enclave_os_mini.Queue.Consumer.{readable_frame, try_recv, deliver, payload}

-- A frame that `readable_frame` lets through is no longer than the largest message, fits the
-- capacity with its length prefix, and starts at the consumer's own position, whatever the header
-- and the buffer hold.
pub readable_frame_bounds :
    (c local : ℕ) (ring : Ring) (tail len : ℕ)
    → (readable_frame (record { capacity = c }) local ring).0 ≡ some (tail, len)
    → (len ≤ max_message_bytes c) × (4 + len ≤ c) × (tail ≡ ring.tail)
unfolding readable_frame
readable_frame_bounds c local ring tail len h = ground arith

-- Looking for a frame moves at most the consumer's own position.
buffer-readable_frame :
    (c local : ℕ) (ring : Ring)
    → ((readable_frame (record { capacity = c }) local ring).1.base ≡ ring.base)
      × ((readable_frame (record { capacity = c }) local ring).1.memory ≡ ring.memory)
unfolding readable_frame
buffer-readable_frame c local ring = (ground arith, ground arith)

module _ {c : ℕ} (v : IsCapacity c) where
  positive : 0 < c
  positive = omega (arith, v.least)

  length-payload :
      (to : ℕ) (ring : Ring) (tail len : ℕ)
      → 4 + len ≤ c
      → length (payload (record { capacity = c }) to ring tail len) ≡ len
  unfolding payload
  length-payload to ring tail len fits =
      ap length
        (read_bytes-window v ring.base to (wrapping_add tail 4) len ring.memory (omega arith))
      ∙ length-window c ring.memory (wrapping_add tail 4) len

  deliver_bounded :
      (to : ℕ) (r : Option (ℕ × ℕ) × Ring) (msg : Bytes)
      → ((tail len : ℕ) → r.0 ≡ some (tail, len) → (len ≤ max_message_bytes c) × (4 + len ≤ c))
      → (deliver (record { capacity = c }) to r).0 ≡ some msg
      → length msg ≤ max_message_bytes c
  deliver_bounded to (none, ring) msg bounds h = cc
  deliver_bounded to (some (tail, len), ring) msg bounds h =
      let (le, fits) = bounds tail len refl in
      let e : payload (record { capacity = c }) to ring tail len ≡ msg = cc in
      omega (arith, length-payload to ring tail len fits, ap (λ (t : Bytes). length t) e, le)

  -- For a valid capacity, `try_recv` returns no message longer than the largest one, whatever the
  -- header and the buffer hold.
  pub try_recv_bounded :
      (local to : ℕ) (ring : Ring) (msg : Bytes)
      → (try_recv (record { capacity = c }) local to ring).0 ≡ some msg
      → length msg ≤ max_message_bytes c
  unfolding try_recv
  try_recv_bounded local to ring msg h =
      deliver_bounded to (readable_frame (record { capacity = c }) local ring) msg
        (λ tail len e.
          let (le, fits, at) = readable_frame_bounds c local ring tail len e in (le, fits))
        h

  memory-publish_outside :
      (local from : ℕ) (ring : Ring) (msg : Bytes) (i : ℕ)
      → length msg ≤ max_message_bytes c
      → c ≤ i
      → (publish (record { capacity = c }) local from ring msg).memory i ≡ ring.memory i
  unfolding publish
  memory-publish_outside local from ring msg i small out =
      ap (λ f. f i)
        (write_bytes-put v ring.base from (wrapping_add ring.head 4) msg _
          (omega (arith, max_message_bytes-bounds v)))
      ∙ put-outside positive _ (wrapping_add ring.head 4) msg i out
      ∙ ap (λ f. f i)
          (write_bytes-put v ring.base local ring.head (to_le_bytes 4 (length msg)) ring.memory
            (omega (arith, v.least)))
      ∙ put-outside positive ring.memory ring.head (to_le_bytes 4 (length msg)) i out

  -- For a valid capacity, `try_send` changes no byte outside the buffer, and when it refuses it
  -- changes nothing, whatever the header holds.
  pub try_send-outside :
      (local from : ℕ) (ring : Ring) (msg : Bytes)
      → ((i : ℕ)
          → c ≤ i
          → (try_send (record { capacity = c }) local from ring msg).1.memory i ≡ ring.memory i)
        × ((try_send (record { capacity = c }) local from ring msg).0 ≡ refused
            → (try_send (record { capacity = c }) local from ring msg).1 ≡ ring)
  unfolding try_send message_len_valid
  try_send-outside local from ring msg =
      ((λ i out. ground (arith, memory-publish_outside local from ring msg i)), λ h. ground arith)

  read_inside :
      (base to offset n : ℕ) (m m' : Memory)
      → n ≤ c
      → ((i : ℕ) → i < c → m i ≡ m' i)
      → read_bytes c base to offset n m ≡ read_bytes c base to offset n m'
  read_inside base to offset n m m' fits same =
      read_bytes-window v base to offset n m fits
      ∙ window-agree positive m m' offset n same
      ∙ sym (read_bytes-window v base to offset n m' fits)

  deliver-inside :
      (to : ℕ) (o : Option (ℕ × ℕ)) (r r' : Ring)
      → ((tail len : ℕ)
          → o ≡ some (tail, len)
          → payload (record { capacity = c }) to r tail len
            ≡ payload (record { capacity = c }) to r' tail len)
      → (deliver (record { capacity = c }) to (o, r)).0
        ≡ (deliver (record { capacity = c }) to (o, r')).0
  deliver-inside to none r r' same = refl
  deliver-inside to (some (tail, len)) r r' same = ap some (same tail len refl)

  module _ (local to : ℕ) (ring : Ring) (m : Memory)
      (same : (i : ℕ) → i < c → m i ≡ ring.memory i) where
    abbrev moved : Ring
    moved = record ring { memory = m }

    frame-inside :
        (readable_frame (record { capacity = c }) local moved).0
        ≡ (readable_frame (record { capacity = c }) local ring).0
    unfolding readable_frame
    frame-inside =
        ground (
          arith,
          read_inside ring.base local ring.tail 4 m ring.memory (omega (arith, v.least)) same,
        )

    payload-inside :
        (tail len : ℕ)
        → (readable_frame (record { capacity = c }) local ring).0 ≡ some (tail, len)
        → payload
            (record { capacity = c })
            to
            (readable_frame (record { capacity = c }) local moved).1
            tail
            len
          ≡ payload
              (record { capacity = c })
              to
              (readable_frame (record { capacity = c }) local ring).1
              tail
              len
    unfolding payload
    payload-inside tail len e =
        let (base, memory) = buffer-readable_frame c local ring in
        let (base', memory') = buffer-readable_frame c local moved in
        let (le, fits, at) = readable_frame_bounds c local ring tail len e in
        ap₂ (λ b d. read_bytes c b to (wrapping_add tail 4) len d) base' memory'
        ∙ read_inside ring.base to (wrapping_add tail 4) len m ring.memory (omega arith) same
        ∙ sym (ap₂ (λ b d. read_bytes c b to (wrapping_add tail 4) len d) base memory)

    -- For a valid capacity, `try_recv` answers the same on two memories that agree on the buffer,
    -- whatever the header holds.
    pub try_recv-inside :
        (try_recv (record { capacity = c }) local to moved).0
        ≡ (try_recv (record { capacity = c }) local to ring).0
    unfolding try_recv
    try_recv-inside =
        let f : Option (ℕ × ℕ) × Ring = readable_frame (record { capacity = c }) local moved in
        let g : Option (ℕ × ℕ) × Ring = readable_frame (record { capacity = c }) local ring in
        ap (λ o. (deliver (record { capacity = c }) to (o, f.1)).0) frame-inside
        ∙ deliver-inside to g.0 f.1 g.1 payload-inside
