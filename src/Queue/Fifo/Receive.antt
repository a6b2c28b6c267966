-- ===== src/Queue/Fifo/Receive.antt =====
-- The receiving operations of common/src/queue.rs against the bounded queue.
use privasys_enclave_os_mini.Common.{
  ℕ, ◌+◌, ◌-◌, ◌%◌, ◌≤◌, ◌≡◌, refl, sym, ap, ◌∙◌, false, leb, none, some, List, [], ◌∷◌, ◌++◌,
  arith, length, drop, take, take-append_left, min, if◌then◌else◌, length-append, append_inj, ltb,
  Bool-cases, inl, inr, ◌⊎◌, ◌<◌,
}
use mathlib.Core.Path.{subst}
use privasys_enclave_os_mini.Common.Bytes.{
  Bytes, to_le_bytes, from_le_bytes, from_le_bytes-to_le_bytes,
}
use privasys_enclave_os_mini.Common.Words.{u64_modulus, wrapping_add, wrapping_sub}
use privasys_enclave_os_mini.Queue.Capacity.{
  IsCapacity, max_message_bytes, max_message_bytes-bounds, wrap-mod,
}
use privasys_enclave_os_mini.Queue.Ring.{Ring, read_bytes}
use privasys_enclave_os_mini.Queue.Ring.Window.{window, window-append, window_mod, length-window}
use privasys_enclave_os_mini.Queue.Ring.Transfer.{read_bytes-window}
use privasys_enclave_os_mini.Queue.Consumer.{
  SpscConsumer, readable_frame, consume_frame, payload, deliver, deliver_into, deliver_with,
  delivered, owner_too_short, discard, buffer, try_recv, try_recv_into, try_recv_with, empty,
  received, too_short, Owned, WithResult, nothing, owner_error, fill_owned,
}
use privasys_enclave_os_mini.Queue.Fifo.{frames, dequeue, dequeue_into, Holds}
use privasys_enclave_os_mini.Queue.Fifo.Send.{used}

abbrev consumer : ℕ → SpscConsumer
consumer c = record { capacity = c }

module _ {c : ℕ} (v : IsCapacity c) {ring : Ring} where
  -- No frame is read from an empty ring.
  readable_frame-empty :
      (local : ℕ) → Holds c ring [] → readable_frame (consumer c) local ring ≡ (none, ring)
  unfolding readable_frame
  readable_frame-empty local h = let free : ltb c 0 ≡ false = ground arith in rw (used v h, free)

  module _ {msg : Bytes} {msgs : List Bytes} (h : Holds c ring (msg ∷ msgs)) where
    length-frames : length (frames (msg ∷ msgs)) ≡ 4 + length msg + length (frames msgs)
    length-frames = omega (
      arith,
      length-append (to_le_bytes 4 (length msg)) (msg ++ frames msgs),
      length-append msg (frames msgs),
    )

    -- The ring holds the length prefix, the message, and the frames behind it, in this order.
    parts :
        (window c ring.memory ring.tail 4 ≡ to_le_bytes 4 (length msg))
        × (window c ring.memory (ring.tail + 4) (length msg) ≡ msg)
        × (window c ring.memory (ring.tail + 4 + length msg) (length (frames msgs)) ≡ frames msgs)
    parts =
        let m = ring.memory in
        let n : ℕ = length msg in
        let r : ℕ = length (frames msgs) in
        let (front, rest) =
          append_inj (window c m ring.tail 4) (to_le_bytes 4 n) (length-window c m ring.tail 4) (
            sym (window-append c m ring.tail 4 (n + r) _ (omega (arith, length-frames)))
            ∙ h.content) in
        let (mid, back) =
          append_inj (window c m (ring.tail + 4) n) msg (length-window c m (ring.tail + 4) n)
            (sym (window-append c m (ring.tail + 4) n r (n + r) refl) ∙ rest) in
        (front, mid, back)

    small : length msg ≤ max_message_bytes c
    small = h.sizes.0

    msg_len :
        (local : ℕ)
        → from_le_bytes (read_bytes c ring.base local ring.tail 4 ring.memory) ≡ length msg
    msg_len local =
        ap from_le_bytes (
          read_bytes-window v ring.base local ring.tail 4 ring.memory (omega (arith, v.least))
          ∙ parts.0)
        ∙ from_le_bytes-to_le_bytes 4 (length msg)
            (omega (arith, small, max_message_bytes-bounds v))

    in_use : wrapping_sub ring.head ring.tail ≡ 4 + length msg + length (frames msgs)
    in_use = used v h ∙ length-frames

    pub readable_frame-message :
        (local : ℕ) → readable_frame (consumer c) local ring ≡ (some (ring.tail, length msg), ring)
    unfolding readable_frame
    readable_frame-message local =
        let n : ℕ = length msg in
        let r : ℕ = length (frames msgs) in
        let fits : 4 + n + r ≤ c = omega (arith, h.fits, length-frames) in
        let t1 : ltb c (4 + n + r) ≡ false = ground arith in
        let t2 : ltb (4 + n + r) 4 ≡ false = ground arith in
        let t3 : ltb (max_message_bytes c) n ≡ false = ground (arith, small) in
        let t4 : ltb c (4 + n) ≡ false = ground arith in
        let t5 : ltb (4 + n + r) (4 + n) ≡ false = ground arith in
        rw (in_use, t1, t2, msg_len local, t3, t4, t5)

    pub payload-message : (to : ℕ) → payload (consumer c) to ring ring.tail (length msg) ≡ msg
    unfolding payload
    payload-message to =
        read_bytes-window v ring.base to (wrapping_add ring.tail 4) (length msg) ring.memory
          (omega (arith, small, max_message_bytes-bounds v))
        ∙ window_mod c ring.memory (wrapping_add ring.tail 4) (ring.tail + 4) (length msg)
            (wrap-mod v (ring.tail + 4))
        ∙ parts.1

    -- The frame's first bytes, as the owner of `try_recv_with` sees them.
    pub payload-prefix :
        (to n : ℕ) → n ≤ length msg → payload (consumer c) to ring ring.tail n ≡ take n msg
    unfolding payload
    payload-prefix to n le =
        let w : Bytes = window c ring.memory (ring.tail + 4) n in
        let w' : Bytes = window c ring.memory (ring.tail + 4 + n) (length msg - n) in
        let len : length w ≡ n = length-window c ring.memory (ring.tail + 4) n in
        read_bytes-window v ring.base to (wrapping_add ring.tail 4) n ring.memory
          (omega (arith, small, max_message_bytes-bounds v))
        ∙ window_mod c ring.memory (wrapping_add ring.tail 4) (ring.tail + 4) n
            (wrap-mod v (ring.tail + 4))
        ∙ sym (take-append_left w w')
        ∙ ap (λ j. take j (w ++ w')) len
        ∙ ap (take n) (
            sym (
              window-append c ring.memory (ring.tail + 4) n (length msg - n) (length msg)
                (omega arith))
            ∙ parts.1)

    pub consume_frame-Holds : Holds c (consume_frame ring ring.tail (length msg)) msgs
    unfolding consume_frame
    consume_frame-Holds =
        let n : ℕ = length msg in
        let end : ℕ = wrapping_add (wrapping_add ring.tail 4) n in
        let same : end % c ≡ (ring.tail + 4 + n) % c =
          ap (λ t. t % c) {x = end} {y = (ring.tail + 4 + n) % u64_modulus} (omega arith)
          ∙ wrap-mod v (ring.tail + 4 + n) in
        record {
          tail_word = omega arith;
          head_at = omega (arith, h.head_at, length-frames);
          fits = omega (arith, h.fits, length-frames);
          sizes = h.sizes.1;
          content =
              window_mod c ring.memory end (ring.tail + 4 + n) (length (frames msgs)) same
              ∙ parts.2;
        }

    try_recv-message :
        (local to : ℕ)
        → try_recv (consumer c) local to ring
          ≡ (some msg, consume_frame ring ring.tail (length msg))
    unfolding try_recv
    try_recv-message local to =
        ap (deliver (consumer c) to) (readable_frame-message local)
        ∙ ap (λ m. (some m, consume_frame ring ring.tail (length msg))) (payload-message to)

    try_recv_into-message :
        (local to : ℕ) (output : Bytes)
        → try_recv_into (consumer c) local to ring output ≡ (
            if ltb (length output) (length msg) then (too_short (length msg), output, ring) else (
              received (length msg),
              msg ++ drop (length msg) output,
              consume_frame ring ring.tail (length msg),
            ))
    unfolding try_recv_into
    try_recv_into-message local to output =
        ap (deliver_into (consumer c) to output) (readable_frame-message local)
        ∙ ap
            (λ m.
              if ltb (length output) (length msg) then (too_short (length msg), output, ring) else (
                received (length msg),
                m ++ drop (length msg) output,
                consume_frame ring ring.tail (length msg),
              ))
            (payload-message to)

  try_recv-empty :
      (local to : ℕ) → Holds c ring [] → try_recv (consumer c) local to ring ≡ (none, ring)
  unfolding try_recv
  try_recv-empty local to h = ap (deliver (consumer c) to) (readable_frame-empty local h)

  try_recv_into-empty :
      (local to : ℕ) (output : Bytes)
      → Holds c ring []
      → try_recv_into (consumer c) local to ring output ≡ (empty, output, ring)
  unfolding try_recv_into
  try_recv_into-empty local to output h =
      ap (deliver_into (consumer c) to output) (readable_frame-empty local h)

-- On a ring of valid capacity that holds some messages, `try_recv` returns the oldest message and
-- leaves the ring holding the others; on an empty ring it returns nothing and leaves it empty.
pub try_recv_refines :
    {c : ℕ} (v : IsCapacity c) {ring : Ring} (msgs : List Bytes)
    → Holds c ring msgs
    → (local to : ℕ)
    → let (out, ring') = try_recv (record { capacity = c }) local to ring in
      (out ≡ (dequeue msgs).0) × Holds c ring' (dequeue msgs).1
unfolding dequeue
try_recv_refines v [] h local to = rw (try_recv-empty v local to h) (refl, h)
try_recv_refines v (msg ∷ msgs) h local to =
    rw (try_recv-message v h local to) (refl, consume_frame-Holds v h)

-- On a ring of valid capacity that holds some messages, `try_recv_into` returns the oldest
-- message's length, writes the message over the front of the storage and leaves the ring holding
-- the others; if the storage is too short it returns the length that is needed, leaves the storage
-- as it is and the ring holding all messages; on an empty ring it reports that and leaves the
-- storage as it is.
pub try_recv_into_refines :
    {c : ℕ} (v : IsCapacity c) {ring : Ring} (msgs : List Bytes)
    → Holds c ring msgs
    → (local to : ℕ) (output : Bytes)
    → let (result, output', ring') = try_recv_into (record { capacity = c }) local to ring output in
      (result ≡ (dequeue_into msgs output).0)
      × (output' ≡ (dequeue_into msgs output).1)
      × Holds c ring' (dequeue_into msgs output).2
unfolding dequeue_into
try_recv_into_refines v [] h local to output =
    rw (try_recv_into-empty v local to output h) (refl, refl, h)
try_recv_into_refines v (msg ∷ msgs) h local to output =
    rw (try_recv_into-message v h local to output)
      (elim (Bool-cases (ltb (length output) (length msg))) [
        | inl short ↦ rw short (refl, refl, h)
        | inr long ↦ rw long (refl, refl, consume_frame-Holds v h)
      ])

fill_owned-ext {ℓ} :
    {E : Type ℓ} (o : Owned E) (len : ℕ) (f g : ℕ → Bytes)
    → f len ≡ g len
    → fill_owned o len f ≡ fill_owned o len g
fill_owned-ext (Owned.refused e) len f g h = refl
fill_owned-ext discard len f g h = refl
fill_owned-ext (buffer b) len f g h =
    ap (λ t. if leb len (length b) then delivered (t ++ drop len b) else owner_too_short) h

-- What the caller gets of a message by the owner's answer: the owner's own error, nothing, or the
-- owner's buffer of which the message replaces the first bytes, if it has room for them.
abbrev pub Gets {ℓ} : {E : Type ℓ} → Owned E → Bytes → WithResult E → Type ℓ
Gets (Owned.refused e) msg result = result ≡ owner_error e
Gets discard msg result = result ≡ nothing
Gets (buffer b) msg result =
    ((length msg ≤ length b) × (result ≡ delivered (msg ++ drop (length msg) b)))
    ⊎ ((length b < length msg) × (result ≡ owner_too_short))

Gets-fill_owned {ℓ} :
    {E : Type ℓ} (o : Owned E) (msg : Bytes) → Gets o msg (fill_owned o (length msg) (λ n. msg))
Gets-fill_owned (Owned.refused e) msg = refl
Gets-fill_owned discard msg = refl
Gets-fill_owned (buffer b) msg = elim (Bool-cases (leb (length msg) (length b))) [
  | inl room ↦ inl (ground (arith, room), rw room)
  | inr short ↦ inr (ground (arith, short), rw short)
]

-- On a ring of valid capacity that holds a message, `try_recv_with` hands the owner the oldest
-- message's length and its first `prefix` bytes, and takes the message off the ring whatever the
-- owner answers. If the owner answers a buffer with room for the message, the result is that buffer
-- with the message in place of its first bytes; a buffer without room, no buffer and an error of
-- the owner are answered as such.
pub try_recv_with_refines {ℓ} :
    {E : Type ℓ} {c : ℕ} (v : IsCapacity c) {ring : Ring} (msg : Bytes) (msgs : List Bytes)
    → Holds c ring (msg ∷ msgs)
    → (prefix local to : ℕ) (owner : ℕ → Bytes → Owned E)
    → let (result, ring') = try_recv_with (record { capacity = c }) prefix local to owner ring in
      Gets (owner (length msg) (take (min (length msg) prefix) msg)) msg result × Holds c ring' msgs
unfolding try_recv_with
try_recv_with_refines {E = E} {c = c} v {ring = ring} msg msgs h prefix local to owner =
    rw (ap (deliver_with (consumer c) prefix local to owner) (readable_frame-message v h local))
      (subst (Gets answer msg) (sym same) (Gets-fill_owned answer msg), consume_frame-Holds v h)
  where
    answer : Owned E
    answer = owner (length msg) (take (min (length msg) prefix) msg)

    same :
        fill_owned
          (owner (length msg) (payload (consumer c) local ring ring.tail (min (length msg) prefix)))
          (length msg)
          (payload (consumer c) to ring ring.tail)
        ≡ fill_owned answer (length msg) (λ n. msg)
    same =
        ap
          (λ p.
            fill_owned (owner (length msg) p) (length msg) (payload (consumer c) to ring ring.tail))
          (payload-prefix v h local (min (length msg) prefix) (omega arith))
        ∙ fill_owned-ext answer (length msg) (payload (consumer c) to ring ring.tail) (λ n. msg)
            (payload-message v h to)
