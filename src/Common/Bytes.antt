-- ===== src/Common/Bytes.antt =====
-- Byte strings, and the fixed-width encodings `to_le_bytes` and `to_be_bytes` with their inverses.
use Prim.Native.Nat.{ℕ, zero, suc, ◌+◌, ◌-◌, ◌*◌, ◌/◌, ◌%◌, ◌^◌, ◌≤◌, ◌<◌}
use mathlib.Core.Path.{◌≡◌, refl, sym, ap}
use mathlib.Core.List.{List, [], ◌∷◌, ◌++◌, reverse, reverse-append, reverse-reverse}
use native.Mathlib.Nat.{pow-suc}
use native.Mathlib.Omega.{arith}
use mathlib.Core.Path.{ap₂, subst, ◌∙◌}
use privasys_enclave_os_mini.Common.Lists.{
  length, take, drop, All, length-append, drop-append_left, take-append_left, length-take,
  length-drop, take-append-drop,
}

-- A byte string; `IsByte` is its elements' range.
abbrev pub Bytes : Type 0
Bytes = List ℕ

abbrev pub IsByte : ℕ → Type 0
IsByte b = b < 256

-- `data[from..to]`
abbrev pub slice : ℕ → ℕ → Bytes → Bytes
slice from to bytes = take (to - from) (drop from bytes)

-- `bytes[i]`; a read out of range, which panics in the source, gives 0 here.
abbrev pub byte_at : Bytes → ℕ → ℕ
byte_at [] i = 0
byte_at (b ∷ bs) zero = b
byte_at (b ∷ bs) (suc i) = byte_at bs i

-- The `w` bytes of `v % 256 ^ w`, lowest first.
abbrev pub to_le_bytes : ℕ → ℕ → Bytes
to_le_bytes zero v = []
to_le_bytes (suc w) v = (v % 256) ∷ to_le_bytes w (v / 256)

abbrev pub from_le_bytes : Bytes → ℕ
from_le_bytes [] = 0
from_le_bytes (b ∷ bs) = b + 256 * from_le_bytes bs

abbrev pub to_be_bytes : ℕ → ℕ → Bytes
to_be_bytes w v = reverse (to_le_bytes w v)

abbrev pub from_be_bytes : Bytes → ℕ
from_be_bytes bs = from_le_bytes (reverse bs)

pub length-to_le_bytes : (w v : ℕ) → length (to_le_bytes w v) ≡ w
length-to_le_bytes zero v = refl
length-to_le_bytes (suc w) v = ap suc (length-to_le_bytes w (v / 256))

pub from_le_bytes-to_le_bytes : (w v : ℕ) → v < 256 ^ w → from_le_bytes (to_le_bytes w v) ≡ v
from_le_bytes-to_le_bytes zero v h = omega arith
from_le_bytes-to_le_bytes (suc w) v h =
    omega (arith, from_le_bytes-to_le_bytes w (v / 256) (omega (arith, pow-suc 256 w)))

pub to_le_bytes-from_le_bytes :
    (bs : Bytes) → All IsByte bs → to_le_bytes (length bs) (from_le_bytes bs) ≡ bs
to_le_bytes-from_le_bytes [] h = refl
to_le_bytes-from_le_bytes (b ∷ bs) (hb, hbs) =
    ap₂ (λ x xs. x ∷ xs) (omega (arith, hb))
      (ap (to_le_bytes (length bs)) {x = (b + 256 * from_le_bytes bs) / 256} {y = from_le_bytes bs}
          (omega (arith, hb))
        ∙ to_le_bytes-from_le_bytes bs hbs)

pub from_le_bytes-lt : (bs : Bytes) → All IsByte bs → from_le_bytes bs < 256 ^ length bs
from_le_bytes-lt [] h = omega arith
from_le_bytes-lt (b ∷ bs) (hb, hbs) =
    omega (arith, hb, from_le_bytes-lt bs hbs, pow-suc 256 (length bs))

pub to_le_bytes-IsByte : (w v : ℕ) → All IsByte (to_le_bytes w v)
to_le_bytes-IsByte zero v = tt
to_le_bytes-IsByte (suc w) v = (omega arith, to_le_bytes-IsByte w (v / 256))

drop-nil : (n : ℕ) → drop {A = ℕ} n [] ≡ []
drop-nil zero = refl
drop-nil (suc n) = refl

pub drop-drop : (a b : ℕ) (bs : Bytes) → drop a (drop b bs) ≡ drop (b + a) bs
drop-drop a zero bs = ap (λ k. drop k bs) {x = a} {y = 0 + a} (omega arith)
drop-drop a (suc b) [] = drop-nil a ∙ sym (drop-nil (suc b + a))
drop-drop a (suc b) (x ∷ bs) =
    drop-drop a b bs ∙ ap (λ k. drop k (x ∷ bs)) {x = suc (b + a)} {y = suc b + a} (omega arith)

-- A slice and what stands behind it.
pub slice-drop : (a b : ℕ) (bs : Bytes) → a ≤ b → slice a b bs ++ drop b bs ≡ drop a bs
slice-drop a b bs h =
    ap (λ t. slice a b bs ++ t)
      (sym (drop-drop (b - a) a bs ∙ ap (λ k. drop k bs) {x = a + (b - a)} {y = b} (omega arith)))
    ∙ take-append-drop (b - a) (drop a bs)

pub length-slice : (a b : ℕ) (bs : Bytes) → a ≤ b → b ≤ length bs → length (slice a b bs) ≡ b - a
length-slice a b bs h le = omega (arith, length-take (b - a) (drop a bs), length-drop a bs)

pub take-IsByte : (n : ℕ) (bs : Bytes) → All IsByte bs → All IsByte (take n bs)
take-IsByte zero bs h = tt
take-IsByte (suc n) [] h = h
take-IsByte (suc n) (b ∷ bs) (hb, hbs) = (hb, take-IsByte n bs hbs)

pub drop-IsByte : (n : ℕ) (bs : Bytes) → All IsByte bs → All IsByte (drop n bs)
drop-IsByte zero bs h = h
drop-IsByte (suc n) [] h = h
drop-IsByte (suc n) (b ∷ bs) (hb, hbs) = drop-IsByte n bs hbs

-- Reading a fixed-width number from a slice and writing it again gives the slice.
pub to_le_bytes-slice :
    (a b : ℕ) (bs : Bytes)
    → All IsByte bs
    → a ≤ b
    → b ≤ length bs
    → (to_le_bytes (b - a) (from_le_bytes (slice a b bs)) ≡ slice a b bs)
      × (from_le_bytes (slice a b bs) < 256 ^ (b - a))
to_le_bytes-slice a b bs h ab le =
    let s : Bytes = slice a b bs in
    let hs : All IsByte s = take-IsByte (b - a) (drop a bs) (drop-IsByte a bs h) in
    let len : length s ≡ b - a = length-slice a b bs ab le in
    (
      ap (λ w. to_le_bytes w (from_le_bytes s)) (sym len) ∙ to_le_bytes-from_le_bytes s hs,
      subst (λ w. from_le_bytes s < 256 ^ w) len (from_le_bytes-lt s hs),
    )

-- The middle part of three, by lengths that are computed otherwise.
pub slice_middle :
    (a b : ℕ) (pre mid post : Bytes)
    → length pre ≡ a
    → length mid ≡ b - a
    → slice a b (pre ++ (mid ++ post)) ≡ mid
slice_middle a b pre mid post ha hb =
    ap (λ k. take (b - a) (drop k (pre ++ (mid ++ post)))) (sym ha)
    ∙ ap (take (b - a)) (drop-append_left pre (mid ++ post))
    ∙ ap (λ k. take k (mid ++ post)) (sym hb)
    ∙ take-append_left mid post

pub length-reverse : (bs : Bytes) → length (reverse bs) ≡ length bs
length-reverse [] = refl
length-reverse (b ∷ bs) =
    ap length (reverse-append (b ∷ []) bs)
    ∙ length-append (reverse bs) (b ∷ [])
    ∙ omega (arith, length-reverse bs)

pub length-to_be_bytes : (w v : ℕ) → length (to_be_bytes w v) ≡ w
length-to_be_bytes w v = length-reverse (to_le_bytes w v) ∙ length-to_le_bytes w v

pub from_be_bytes-to_be_bytes : (w v : ℕ) → v < 256 ^ w → from_be_bytes (to_be_bytes w v) ≡ v
from_be_bytes-to_be_bytes w v h =
    ap from_le_bytes (reverse-reverse (to_le_bytes w v)) ∙ from_le_bytes-to_le_bytes w v h

-- The byte behind a front part.
pub byte_at_middle :
    (i : ℕ) (pre : Bytes) (b : ℕ) (post : Bytes) → length pre ≡ i → byte_at (pre ++ b ∷ post) i ≡ b
byte_at_middle i [] b post e = ap (byte_at (b ∷ post)) {x = i} {y = 0} (omega arith)
byte_at_middle zero (x ∷ pre) b post e = absurd (omega arith)
byte_at_middle (suc i) (x ∷ pre) b post e = byte_at_middle i pre b post (omega arith)
