-- ===== src/Queue/Fifo/Send.antt =====
-- `try_send` of common/src/queue.rs against the bounded queue.
use privasys_enclave_os_mini.Common.{
  ℕ, ◌+◌, ◌-◌, ◌%◌, ◌≤◌, ◌≡◌, refl, sym, ap, ◌∙◌, true, false, List, [], ◌∷◌, ◌++◌, arith, length,
  All, length-append, leb, ltb,
}
use privasys_enclave_os_mini.Common.Bytes.{Bytes, to_le_bytes}
use privasys_enclave_os_mini.Common.Words.{wrapping_add, wrapping_sub}
use privasys_enclave_os_mini.Queue.Capacity.{IsCapacity, max_message_bytes, wrap-mod}
use privasys_enclave_os_mini.Queue.Ring.{Ring}
use privasys_enclave_os_mini.Queue.Ring.Window.{
  put, put-append, put_mod, window-append, window-put_self, window-put_before,
}
use privasys_enclave_os_mini.Queue.Ring.Transfer.{write_bytes-put}
use privasys_enclave_os_mini.Queue.Producer.{SpscProducer, publish, try_send, message_len_valid}
use privasys_enclave_os_mini.Queue.Fifo.{frames, enqueue, Holds}
use mathlib.Core.Path.{ap₂}
use native.Mathlib.Decide.{dec_le}
use native.Mathlib.Nat.{mod-add-mod}
use mathlib.Core.List.{append-nil, append_assoc}

abbrev pub frame : Bytes → Bytes
frame msg = to_le_bytes 4 (length msg) ++ msg

pub length-frame : (msg : Bytes) → length (frame msg) ≡ 4 + length msg
length-frame msg = omega (arith, length-append (to_le_bytes 4 (length msg)) msg)

frames-append :
    (msgs : List Bytes) (msg : Bytes) → frames (msgs ++ msg ∷ []) ≡ frames msgs ++ frame msg
frames-append [] msg = ap (λ t. to_le_bytes 4 (length msg) ++ t) (append-nil msg)
frames-append (x ∷ msgs) msg = rw (frames-append msgs msg) (simp append_assoc)

length-frames-append :
    (msgs : List Bytes) (msg : Bytes)
    → length (frames (msgs ++ msg ∷ [])) ≡ length (frames msgs) + 4 + length msg
length-frames-append msgs msg =
    rw frames-append (omega (arith, length-append (frames msgs) (frame msg), length-frame msg))

All-append {ℓ κ} :
    {A : Type ℓ} (P : A → Type κ) (xs : List A) (x : A) → All P xs → P x → All P (xs ++ x ∷ [])
All-append P [] x h p = (p, tt)
All-append P (y ∷ ys) x h p = (h.0, All-append P ys x h.1 p)

module _ {c : ℕ} (v : IsCapacity c) {ring : Ring} {msgs : List Bytes} (h : Holds c ring msgs) where
  -- The bytes in use are those of the frames, although the positions wrap.
  pub used : wrapping_sub ring.head ring.tail ≡ length (frames msgs)
  used = omega (arith, h.head_at, h.tail_word, h.fits, v.greatest)

  head-mod : ring.head % c ≡ (ring.tail + length (frames msgs)) % c
  head-mod = rw h.head_at (wrap-mod v (ring.tail + length (frames msgs)))

  module _ (local from : ℕ) (msg : Bytes) (room : length (frames msgs) + 4 + length msg ≤ c) where
    abbrev p : SpscProducer
    p = record { capacity = c }

    memory-publish :
        (publish p local from ring msg).memory
        ≡ put c ring.memory (ring.tail + length (frames msgs)) (frame msg)
    unfolding publish
    memory-publish =
        let lb : Bytes = to_le_bytes 4 (length msg) in
        let at : ℕ = ring.tail + length (frames msgs) in
        write_bytes-put v ring.base from (wrapping_add ring.head 4) msg _ (omega arith)
        ∙ ap (λ m. put c m (wrapping_add ring.head 4) msg)
            (write_bytes-put v ring.base local ring.head lb ring.memory (omega arith)
              ∙ put_mod c ring.memory ring.head at lb head-mod)
        ∙ put_mod c (put c ring.memory at lb) (wrapping_add ring.head 4) (at + 4) msg (
            wrap-mod v (ring.head + 4)
            ∙ sym (mod-add-mod ring.head c 4)
            ∙ ap (λ r. (r + 4) % c) head-mod
            ∙ mod-add-mod at c 4)
        ∙ sym (put-append c ring.memory at lb msg)

    publish-Holds :
        length msg ≤ max_message_bytes c
        → Holds c (publish p local from ring msg) (msgs ++ msg ∷ [])
    unfolding publish
    publish-Holds small =
        let n : ℕ = length (frames msgs) in
        let grown : length (frames (msgs ++ msg ∷ [])) ≡ n + length (frame msg) =
          omega (arith, length-frames-append msgs msg, length-frame msg) in
        record {
          tail_word = h.tail_word;
          head_at = omega (arith, h.head_at, grown, length-frame msg);
          fits = omega (arith, length-frames-append msgs msg);
          sizes = All-append (λ m. length m ≤ max_message_bytes c) msgs msg h.sizes small;
          content =
              rw (grown, memory-publish, frames-append)
                (window-append c (put c ring.memory (ring.tail + n) (frame msg)) ring.tail n
                    (length (frame msg)) _ refl
                  ∙ ap₂ (λ a b. a ++ b)
                      (window-put_before c ring.memory ring.tail n n (frame msg) (omega arith)
                          (omega (arith, length-frame msg))
                        ∙ h.content)
                      (window-put_self c ring.memory (ring.tail + n) (frame msg)
                        (omega (arith, length-frame msg))));
        }

  -- On a ring of valid capacity that holds some messages, `try_send` accepts a message exactly
  -- when the bounded queue of these messages does, and the ring then holds the messages of that
  -- queue.
  pub try_send_refines :
      (local from : ℕ) (msg : Bytes)
      → let (result, ring') = try_send (record { capacity = c }) local from ring msg in
        (result ≡ (enqueue c msgs msg).0) × Holds c ring' (enqueue c msgs msg).1
  unfolding try_send message_len_valid enqueue
  try_send_refines local from msg =
      let n : ℕ = length (frames msgs) in
      let free : ltb c n ≡ false = ground (arith, h.fits) in
      elim (dec_le (length msg) (max_message_bytes c)) [
        | no large ↦
            let t : leb (length msg) (max_message_bytes c) ≡ false = ground arith in rw t (refl, h)
        | yes small ↦
            let t : leb (length msg) (max_message_bytes c) ≡ true = ground arith in
            elim (dec_le (n + 4 + length msg) c) [
              | no full ↦
                  let r : ltb (c - n) (4 + length msg) ≡ true = ground (arith, h.fits) in
                  let l : leb (n + 4 + length msg) c ≡ false = ground arith in
                  rw (t, used, free, r, l) (refl, h)
              | yes room ↦
                  let r : ltb (c - n) (4 + length msg) ≡ false = ground arith in
                  let l : leb (n + 4 + length msg) c ≡ true = ground arith in
                  rw (t, used, free, r, l) (refl, publish-Holds local from msg room small)
            ]
      ]
