-- ===== src/Queue/Ring/Window.antt =====
-- A ring of `c` bytes by positions instead of indices: the bytes from a position on, and a write
-- byte by byte. Both go round at `c`.
use privasys_enclave_os_mini.Common.{
  ℕ, zero, suc, ◌+◌, ◌-◌, ◌/◌, ◌%◌, ◌≤◌, ◌<◌, ◌≡◌, ◌≢◌, refl, sym, ap, ◌∙◌, [], ◌∷◌, ◌++◌, arith,
  length,
}
use privasys_enclave_os_mini.Common.Bytes.{Bytes}
use privasys_enclave_os_mini.Queue.Memory.{Memory, update}
use mathlib.Core.Path.{ap₂}
use native.Mathlib.Decide.{dec_le}
use native.Mathlib.Nat.{mod-lt, div-add-mod, mod-add-mod, mul-le-mul_left}

module _ (c : ℕ) where
  unfoldable pub window : Memory → ℕ → ℕ → Bytes
  window m p zero = []
  window m p (suc n) = m (p % c) ∷ window m (p + 1) n

  unfoldable pub put : Memory → ℕ → Bytes → Memory
  put m p [] = m
  put m p (x ∷ xs) = put (update m (p % c) x) (p + 1) xs

update_self : (m : Memory) (i x : ℕ) → update m i x i ≡ x
update_self m i x = ground arith

update_ne : (m : Memory) (i j x : ℕ) → i ≢ j → update m i x j ≡ m j
update_ne m i j x h = ground arith

-- Two positions less than `c` apart have different indices.
mod-ne : (c p d : ℕ) → 0 < d → d < c → (p + d) % c ≢ p % c
mod-ne c p d pos small e = elim (dec_le ((p + d) / c) (p / c)) [
  | yes le ↦ omega (arith, div-add-mod (p + d) c, div-add-mod p c, mul-le-mul_left c le)
  | no gt ↦ omega (
    arith,
    div-add-mod (p + d) c,
    div-add-mod p c,
    mul-le-mul_left {m = p / c + 1} {n = (p + d) / c} c (omega arith),
  )
]

module _ (c : ℕ) where
  pub put-append :
      (m : Memory) (p : ℕ) (xs ys : Bytes)
      → put c m p (xs ++ ys) ≡ put c (put c m p xs) (p + length xs) ys
  unfolding put
  put-append m p [] ys = ap (λ k. put c m k ys) (omega arith)
  put-append m p (x ∷ xs) ys =
      put-append (update m (p % c) x) (p + 1) xs ys
      ∙ ap (λ k. put c (put c (update m (p % c) x) (p + 1) xs) k ys) (omega arith)

  -- A write leaves the positions before it alone, back to one round behind its end.
  pub put-before :
      (m : Memory) (q d : ℕ) (xs : Bytes)
      → 0 < d
      → d + length xs ≤ c
      → put c m (q + d) xs (q % c) ≡ m (q % c)
  unfolding put
  put-before m q d [] pos fits = refl
  put-before m q d (x ∷ xs) pos fits =
      let m' : Memory = update m ((q + d) % c) x in
      ap (λ k. put c m' k xs (q % c)) (omega arith)
      ∙ put-before m' q (d + 1) xs (omega arith) (omega arith)
      ∙ update_ne m ((q + d) % c) (q % c) x (mod-ne c q d pos (omega arith))

  pub window-append :
      (m : Memory) (p k n r : ℕ)
      → r ≡ k + n
      → window c m p r ≡ window c m p k ++ window c m (p + k) n
  unfolding window
  window-append m p zero n r e = ap₂ (λ a b. window c m a b) (omega arith) (omega arith)
  window-append m p (suc k) n zero e = absurd (omega arith)
  window-append m p (suc k) n (suc r) e =
      ap (λ t. m (p % c) ∷ t)
        (window-append m (p + 1) k n r (omega arith)
          ∙ ap (λ a. window c m (p + 1) k ++ window c m a n) (omega arith))

  pub window-put_self :
      (m : Memory) (p : ℕ) (xs : Bytes) → length xs ≤ c → window c (put c m p xs) p (length xs) ≡ xs
  unfolding window put
  window-put_self m p [] fits = refl
  window-put_self m p (x ∷ xs) fits =
      let m' : Memory = update m (p % c) x in
      ap₂ (λ a b. a ∷ b)
        (put-before m' p 1 xs (omega arith) (omega arith) ∙ update_self m (p % c) x)
        (window-put_self m' (p + 1) xs (omega arith))

  pub window-put_before :
      (m : Memory) (q d n : ℕ) (xs : Bytes)
      → n ≤ d
      → d + length xs ≤ c
      → window c (put c m (q + d) xs) q n ≡ window c m q n
  unfolding window
  window-put_before m q d zero xs le fits = refl
  window-put_before m q d (suc n) xs le fits =
      ap₂ (λ a b. a ∷ b) (put-before m q d xs (omega arith) fits)
        (ap (λ k. window c (put c m k xs) (q + 1) n) (omega arith)
          ∙ window-put_before m (q + 1) (d - 1) n xs (omega arith) (omega arith))

  -- Positions that agree in the ring have one window.
  pub window_mod : (m : Memory) (p q n : ℕ) → p % c ≡ q % c → window c m p n ≡ window c m q n
  unfolding window
  window_mod m p q zero e = refl
  window_mod m p q (suc n) e =
      ap₂ (λ a b. m a ∷ b) e
        (window_mod m (p + 1) (q + 1) n
          (sym (mod-add-mod p c 1) ∙ ap (λ r. (r + 1) % c) e ∙ mod-add-mod q c 1))

  pub put_mod : (m : Memory) (p q : ℕ) (xs : Bytes) → p % c ≡ q % c → put c m p xs ≡ put c m q xs
  unfolding put
  put_mod m p q [] e = refl
  put_mod m p q (x ∷ xs) e =
      ap (λ i. put c (update m i x) (p + 1) xs) e
      ∙ put_mod (update m (q % c) x) (p + 1) (q + 1) xs
          (sym (mod-add-mod p c 1) ∙ ap (λ r. (r + 1) % c) e ∙ mod-add-mod q c 1)

  pub length-window : (m : Memory) (p n : ℕ) → length (window c m p n) ≡ n
  unfolding window
  length-window m p zero = refl
  length-window m p (suc n) = ap suc (length-window m (p + 1) n)

module _ {c : ℕ} (pos : 0 < c) where
  pub put-outside : (m : Memory) (p : ℕ) (xs : Bytes) (i : ℕ) → c ≤ i → put c m p xs i ≡ m i
  unfolding put
  put-outside m p [] i out = refl
  put-outside m p (x ∷ xs) i out =
      put-outside (update m (p % c) x) (p + 1) xs i out
      ∙ update_ne m (p % c) i x (λ e. omega (arith, mod-lt p pos))

  pub window-agree :
      (m m' : Memory) (p n : ℕ) → ((i : ℕ) → i < c → m i ≡ m' i) → window c m p n ≡ window c m' p n
  unfolding window
  window-agree m m' p zero same = refl
  window-agree m m' p (suc n) same =
      ap₂ (λ a b. a ∷ b) (same (p % c) (mod-lt p pos)) (window-agree m m' (p + 1) n same)
