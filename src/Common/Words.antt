-- ===== src/Common/Words.antt =====
-- Machine words: wrapping arithmetic on `u64`, and masking by a power of two.
use Prim.Native.Nat.{
  ℕ, zero, suc, ◌+◌, ◌-◌, ◌*◌, ◌/◌, ◌%◌, ◌^◌, ◌≤◌, ◌<◌, ◌∣◌, min, bit_and, digits, bit_and-bitwise,
}
use mathlib.Core.Path.{◌≡◌, refl, sym, ap, ◌∙◌}
use native.Mathlib.Nat.{pow-suc, mul-add-mod_self_left, mod-eq_of_lt, div-add-mod, mod-lt}
use native.Mathlib.Decide.{dec_le}
use mathlib.Core.Bool.{Bool, true}
use mathlib.Core.List.{List, [], ◌∷◌}
use privasys_enclave_os_mini.Common.Tests.{and-true}
use privasys_enclave_os_mini.Common.Lists.{all}
use native.Mathlib.Omega.{arith}

abbrev pub u64_modulus : ℕ
u64_modulus = 2 ^ 64

-- `a.wrapping_add(b)` and `a.wrapping_sub(b)` on `u64`
abbrev pub wrapping_add : ℕ → ℕ → ℕ
wrapping_add a b = (a + b) % u64_modulus

abbrev pub wrapping_sub : ℕ → ℕ → ℕ
wrapping_sub a b = (a + u64_modulus - b) % u64_modulus

pow_pos : (k : ℕ) → 0 < 2 ^ k
pow_pos zero = omega arith
pow_pos (suc k) = omega (arith, pow-suc 2 k, pow_pos k)

-- A remainder is determined by the quotient beside it.
mod_unique : (m q r : ℕ) → r < m → (m * q + r) % m ≡ r
mod_unique m q r h = mul-add-mod_self_left m q r ∙ mod-eq_of_lt h

half_mod : (m x : ℕ) → 0 < m → x / 2 % m * 2 + x % 2 ≡ x % (2 * m)
half_mod m x h =
    let r : ℕ = x / 2 % m * 2 + x % 2 in
    sym (
      ap (λ t. t % (2 * m)) (omega (arith, ap (λ t. t * 2) (div-add-mod (x / 2) m)))
      ∙ mod_unique (2 * m) (x / 2 / m) r (omega (arith, mod-lt (x / 2) h)))

-- What the native `bit_and` of `x` and a mask of `k` ones stands for, on enough fuel.
mask_digits : (fuel k x : ℕ) → x ≤ fuel → digits (λ y. zero) min fuel x (2 ^ k - 1) ≡ x % 2 ^ k
mask_digits fuel k zero h = out_of_digits fuel ∙ sym (mod-eq_of_lt (pow_pos k))
  where
    out_of_digits : (n : ℕ) → digits (λ y. zero) min n zero (2 ^ k - 1) ≡ zero
    out_of_digits zero = refl
    out_of_digits (suc n) = refl
mask_digits zero k (suc x) h = absurd (omega arith)
mask_digits (suc fuel) zero (suc x) h =
    omega (arith, mask_digits fuel zero (suc x / 2) (omega arith))
mask_digits (suc fuel) (suc k) (suc x) h =
    let ones : (2 ^ suc k - 1) / 2 ≡ 2 ^ k - 1 = omega (arith, pow-suc 2 k, pow_pos k) in
    let twice : 2 * 2 ^ k ≡ 2 ^ suc k = omega (arith, pow-suc 2 k) in
    omega (
      arith,
      pow-suc 2 k,
      pow_pos k,
      ap (digits (λ y. zero) min fuel (suc x / 2)) ones,
      mask_digits fuel k (suc x / 2) (omega arith),
      half_mod (2 ^ k) (suc x) (pow_pos k),
      ap (λ t. suc x % t) twice,
    )

-- `x & (2^k - 1)` is the remainder of `x` by `2^k`.
pub bit_and_mask : (k x : ℕ) → bit_and x (2 ^ k - 1) ≡ x % 2 ^ k
bit_and_mask k x = bit_and-bitwise x (2 ^ k - 1) ∙ mask_digits x k x (omega arith)

pow_factor : (k n : ℕ) → k ≤ n → (q : ℕ) × (2 ^ n ≡ 2 ^ k * q)
pow_factor zero zero h = (1, refl)
pow_factor (suc k) zero h = absurd (omega arith)
pow_factor k (suc n) h = elim (dec_le k n) [
  | yes le ↦
      let (q, e) = pow_factor k n le in (q * 2, omega (arith, pow-suc 2 n, ap (λ t. t * 2) e))
  | no gt ↦ (1, rw (eq gt) (omega arith))
]
  where
    eq : ¬ (k ≤ n) → k ≡ suc n
    eq gt = omega arith

pub pow_dvd : (k n : ℕ) → k ≤ n → 2 ^ k ∣ 2 ^ n
pow_dvd k n h = ∣ pow_factor k n h ∣₁

-- The numbers below `n`. A fact about every byte is checked by evaluation on those below 256.
unfoldable pub below : ℕ → List ℕ
below zero = []
below (suc n) = n ∷ below n

pub all-below : (p : ℕ → Bool) {n x : ℕ} → x < n → all p (below n) ≡ true → p x ≡ true
unfolding below
all-below p {n = zero} lt checked = elim lt [ ]
all-below p {n = suc n} {x} lt checked =
    let (now, later) = and-true (p n) (all p (below n)) checked in
    ground (arith, λ (smaller : x < n). all-below p smaller later)
