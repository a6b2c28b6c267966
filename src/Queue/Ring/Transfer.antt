-- ===== src/Queue/Ring/Transfer.antt =====
-- `write_bytes` and `read_bytes` of common/src/queue.rs go round the ring and stay inside it.
use privasys_enclave_os_mini.Common.{
  ℕ, zero, suc, ◌+◌, ◌-◌, ◌%◌, ◌≤◌, ◌<◌, min, ◌≡◌, refl, sym, ap, ◌∙◌, [], ◌∷◌, ◌++◌, arith, ltb,
  leb, length, take, drop, Bool-cases, inl, inr, take-ge, take-append-drop, length-take,
  length-drop,
}
use privasys_enclave_os_mini.Common.Bytes.{Bytes}
use privasys_enclave_os_mini.Queue.Capacity.{IsCapacity, mask_mod}
use privasys_enclave_os_mini.Queue.Memory.{Memory, update, copy_in, copy_out}
use privasys_enclave_os_mini.Queue.Memory.Staging.{
  copy_to_shared-copy_in, copy_from_shared-copy_out,
}
use privasys_enclave_os_mini.Queue.Ring.{write_bytes, read_bytes}
use privasys_enclave_os_mini.Queue.Ring.Window.{window, put, put-append, window-append}
use privasys_enclave_os_mini.Common.{leb→le, true, false}
use mathlib.Core.Path.{ap₂}
use native.Mathlib.Decide.{dec_lt}
use native.Mathlib.Nat.{mod-add-mod, mod-eq_of_lt, mod-lt, mod_self}

module _ (c : ℕ) where
  next_index : (i p : ℕ) → i ≡ p % c → i + 1 < c → i + 1 ≡ (p + 1) % c
  next_index i p e h =
      sym (sym (mod-add-mod p c 1) ∙ ap (λ r. (r + 1) % c) (sym e) ∙ mod-eq_of_lt h)

  -- Up to the end of the buffer, a copy is a write of the ring.
  copy_in-put :
      (m : Memory) (i p : ℕ) (xs : Bytes)
      → i ≡ p % c
      → i + length xs ≤ c
      → copy_in m i xs ≡ put c m p xs
  unfolding copy_in put
  copy_in-put m i p [] e fits = refl
  copy_in-put m i p (x ∷ []) e fits = ap (λ k. update m k x) e
  copy_in-put m i p (x ∷ y ∷ ys) e fits =
      copy_in-put (update m i x) (i + 1) (p + 1) (y ∷ ys) (next_index i p e (omega arith))
        (omega arith)
      ∙ ap (λ k. put c (update m k x) (p + 1) (y ∷ ys)) e

  copy_out-window :
      (m : Memory) (i p n : ℕ) → i ≡ p % c → i + n ≤ c → copy_out m i n ≡ window c m p n
  unfolding copy_out window
  copy_out-window m i p zero e fits = refl
  copy_out-window m i p (suc zero) e fits = ap (λ k. m k ∷ []) e
  copy_out-window m i p (suc (suc n)) e fits =
      ap₂ (λ a b. a ∷ b) (ap m e)
        (copy_out-window m (i + 1) (p + 1) (suc n) (next_index i p e (omega arith)) (omega arith))

  -- The position at which a write from `p` comes back to index 0.
  round_end : (p : ℕ) → 0 < c → 0 ≡ (p + (c - p % c)) % c
  round_end p pos =
      sym (mod_self c)
      ∙ ap (λ k. k % c) {x = c} {y = p % c + (c - p % c)} (omega (arith, mod-lt p pos))
      ∙ mod-add-mod p c (c - p % c)

  -- A copy to the end of the buffer, and the rest to its start.
  copy_in_twice-put :
      (m : Memory) (p : ℕ) (xs : Bytes)
      → 0 < c
      → c - p % c < length xs
      → length xs ≤ c
      → copy_in (copy_in m (p % c) (take (c - p % c) xs)) 0 (drop (c - p % c) xs) ≡ put c m p xs
  copy_in_twice-put m p xs pos over fits =
      let f : ℕ = c - p % c in
      let len : length (take f xs) ≡ f = omega (arith, length-take f xs) in
      ap (λ m'. copy_in m' 0 (drop f xs))
        (copy_in-put m (p % c) p (take f xs) refl (omega (arith, len, mod-lt p pos)))
      ∙ copy_in-put (put c m p (take f xs)) 0 (p + f) (drop f xs) (round_end p pos)
          (omega (arith, length-drop f xs))
      ∙ ap (λ k. put c (put c m p (take f xs)) (p + k) (drop f xs)) (sym len)
      ∙ sym (put-append c m p (take f xs) (drop f xs))
      ∙ ap (put c m p) (take-append-drop f xs)

  copy_out_twice-window :
      (m : Memory) (p n : ℕ)
      → 0 < c
      → c - p % c ≤ n
      → n ≤ c
      → copy_out m (p % c) (c - p % c) ++ copy_out m 0 (n - (c - p % c)) ≡ window c m p n
  copy_out_twice-window m p n pos over fits =
      let f : ℕ = c - p % c in
      ap₂ (λ a b. a ++ b) (copy_out-window m (p % c) p f refl (omega (arith, mod-lt p pos)))
        (copy_out-window m 0 (p + f) (n - f) (round_end p pos) (omega arith))
      ∙ sym (window-append c m p f (n - f) n (omega arith))

module _ {c : ℕ} (v : IsCapacity c) where
  positive : 0 < c
  positive = omega (arith, v.least)

  -- For a valid capacity, `write_bytes` of no more bytes than that puts them at the positions from
  -- `offset` on, each at its index in the ring, whatever the addresses.
  pub write_bytes-put :
      (base from offset : ℕ) (bytes : Bytes) (m : Memory)
      → length bytes ≤ c
      → write_bytes c base from offset bytes m ≡ put c m offset bytes
  unfolding write_bytes
  write_bytes-put base from offset bytes m fits =
      let f : ℕ = c - offset % c in
      let s : offset % c < c = mod-lt offset positive in
      rw (mask_mod v offset) (elim (dec_lt f (length bytes)) [
        | yes over ↦
            let first : min (length bytes) f ≡ f = omega arith in
            let test : ltb f (length bytes) ≡ true = ground arith in
            rw (first, test, copy_to_shared-copy_in, copy_to_shared-copy_in)
              (copy_in_twice-put c m offset bytes positive over fits)
        | no under ↦
            let first : min (length bytes) f ≡ length bytes = omega arith in
            let test : ltb (length bytes) (length bytes) ≡ false = ground arith in
            let whole : take (length bytes) bytes ≡ bytes =
              take-ge (length bytes) bytes (omega arith) in
            rw (first, test, whole, copy_to_shared-copy_in)
              (copy_in-put c m (offset % c) offset bytes refl (omega arith))
      ])

  -- For a valid capacity, `read_bytes` of no more bytes than that reads those at the positions
  -- from `offset` on, each from its index in the ring, whatever the addresses.
  pub read_bytes-window :
      (base to offset n : ℕ) (m : Memory)
      → n ≤ c
      → read_bytes c base to offset n m ≡ window c m offset n
  unfolding read_bytes
  read_bytes-window base to offset n m fits =
      rw (mask_mod v offset) (elim (Bool-cases (leb (offset % c + n) c)) [
        | inl inside ↦
            rw (inside, copy_from_shared-copy_out)
              (copy_out-window c m (offset % c) offset n refl (leb→le _ _ inside))
        | inr over ↦
            rw (over, copy_from_shared-copy_out, copy_from_shared-copy_out)
              (copy_out_twice-window c m offset n positive (ground arith) fits)
      ])
