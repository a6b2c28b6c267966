-- ===== src/Queue/Memory/Staging.antt =====
-- The staged copies of common/src/queue.rs are plain copies.
use privasys_enclave_os_mini.Common.{
  ℕ, zero, suc, ◌+◌, ◌-◌, ◌*◌, ◌≤◌, ◌<◌, bit_and, ◌≡◌, refl, sym, ap, ◌∙◌, ◌&&◌, [], ◌∷◌, ◌++◌,
  arith, leb, length, take, drop, min, length-append, length-take, length-drop, take-append_left,
  drop-append_left, length-replicate, Bool-cases, inl, inr,
}
use privasys_enclave_os_mini.Common.Bytes.{Bytes, slice}
use privasys_enclave_os_mini.Common.Words.{bit_and_mask}
use mathlib.Core.Path.{ap₂}
use mathlib.Core.List.{append-nil}
use native.Mathlib.Decide.{dec_le}
use privasys_enclave_os_mini.Queue.Memory.{
  Memory, update, copy_in, copy_out, misaligned, staging_buffer, fill_staging, stage_in, stage_out,
  copy_to_shared, copy_from_shared,
}

-- What was put into the staging buffer is what is taken from it.
slice-fill :
    (staging : Bytes) (prefix : ℕ) (chunk : Bytes)
    → prefix ≤ length staging
    → slice prefix (prefix + length chunk) (fill_staging staging prefix chunk) ≡ chunk
unfolding fill_staging
slice-fill staging prefix chunk h =
    let front : Bytes = take prefix staging in
    let back : Bytes = drop (prefix + length chunk) staging in
    let e : length front ≡ prefix = omega (arith, length-take prefix staging) in
    let n : prefix + length chunk - prefix ≡ length chunk = omega arith in
    rw n (
      ap (λ t. take (length chunk) t)
        (rw (ap (λ k. drop k (front ++ (chunk ++ back))) (sym e))
          (drop-append_left front (chunk ++ back)))
      ∙ take-append_left chunk back)

fill_staging-long :
    (staging : Bytes) (prefix : ℕ) (chunk : Bytes)
    → prefix ≤ length staging
    → prefix ≤ length (fill_staging staging prefix chunk)
unfolding fill_staging
fill_staging-long staging prefix chunk h = omega (
  arith,
  length-append (take prefix staging) (chunk ++ drop (prefix + length chunk) staging),
  length-take prefix staging,
)

-- A copy in two parts.
copy_in-take-drop :
    (m : Memory) (at size : ℕ) (bytes : Bytes)
    → copy_in (copy_in m at (take size bytes)) (at + size) (drop size bytes) ≡ copy_in m at bytes
unfolding copy_in
copy_in-take-drop m at zero bytes = ap (λ k. copy_in m k bytes) (omega arith)
copy_in-take-drop m at (suc size) [] = refl
copy_in-take-drop m at (suc size) (x ∷ xs) =
    ap (λ k. copy_in (copy_in (update m at x) (at + 1) (take size xs)) k (drop size xs))
      (omega arith)
    ∙ copy_in-take-drop (update m at x) (at + 1) size xs

pub copy_out_split :
    (m : Memory) (at k r n : ℕ)
    → n ≡ k + r
    → copy_out m at n ≡ copy_out m at k ++ copy_out m (at + k) r
unfolding copy_out
copy_out_split m at zero r n e = ap₂ (λ a b. copy_out m a b) (omega arith) (omega arith)
copy_out_split m at (suc k) r zero e = absurd (omega arith)
copy_out_split m at (suc k) r (suc n) e =
    ap (λ t. m at ∷ t)
      (copy_out_split m (at + 1) k r n (omega arith)
        ∙ ap (λ p. copy_out m (at + 1) k ++ copy_out m p r) (omega arith))

-- Where the first part does not reach `size`, nothing is left for the second.
copy_out-min :
    (m : Memory) (at size n : ℕ)
    → copy_out m at (min size n) ++ copy_out m (at + size) (n - size) ≡ copy_out m at n
unfolding copy_out
copy_out-min m at size n = elim (dec_le size n) [
  | yes h ↦
      ap (λ k. copy_out m at k ++ copy_out m (at + size) (n - size)) (omega arith)
      ∙ sym (copy_out_split m at size (n - size) n (omega arith))
  | no h ↦ rw (whole h, none_left h, append-nil)
]
  where
    whole : ¬ (size ≤ n) → min size n ≡ n
    whole h = omega arith

    none_left : ¬ (size ≤ n) → n - size ≡ 0
    none_left h = omega arith

copy_out-zero : (m : Memory) (at : ℕ) → copy_out m at 0 ≡ []
unfolding copy_out
copy_out-zero m at = refl

pub length-copy_out : (m : Memory) (at n : ℕ) → length (copy_out m at n) ≡ n
unfolding copy_out
length-copy_out m at zero = refl
length-copy_out m at (suc n) = ap suc (length-copy_out m (at + 1) n)

stage_in-nil :
    (rounds size : ℕ) (staging : Bytes) (prefix at index : ℕ) (m : Memory)
    → stage_in rounds size staging prefix at index [] m ≡ m
unfolding stage_in
stage_in-nil zero size staging prefix at index m = refl
stage_in-nil (suc rounds) size staging prefix at index m = refl

stage_in-copy_in :
    (rounds size : ℕ) (staging : Bytes) (prefix at index : ℕ) (bytes : Bytes) (m : Memory)
    → 0 < size
    → prefix ≤ length staging
    → length bytes ≤ rounds
    → stage_in rounds size staging prefix at index bytes m ≡ copy_in m (at + index * size) bytes
unfolding stage_in copy_in
stage_in-copy_in rounds size staging prefix at index [] m pos room enough =
    stage_in-nil rounds size staging prefix at index m
stage_in-copy_in zero size staging prefix at index (x ∷ xs) m pos room enough = absurd (omega arith)
stage_in-copy_in (suc rounds) size staging prefix at index (x ∷ xs) m pos room enough =
    let chunk : Bytes = take size (x ∷ xs) in
    let rest : Bytes = drop size (x ∷ xs) in
    rw (slice-fill staging prefix chunk room) (
      stage_in-copy_in rounds size (fill_staging staging prefix chunk) prefix at (index + 1) rest
        (copy_in m (at + index * size) chunk) pos (fill_staging-long staging prefix chunk room)
        (omega (arith, length-drop size (x ∷ xs)))
      ∙ ap (λ k. copy_in (copy_in m (at + index * size) chunk) k rest) (omega arith)
      ∙ copy_in-take-drop m (at + index * size) size (x ∷ xs))

slice-fill_read :
    (staging : Bytes) (prefix at n : ℕ) (m : Memory)
    → prefix ≤ length staging
    → slice prefix (prefix + n) (fill_staging staging prefix (copy_out m at n)) ≡ copy_out m at n
slice-fill_read staging prefix at n m h =
    rw (length-copy_out m at n) at (slice-fill staging prefix (copy_out m at n) h)

stage_out-copy_out :
    (rounds size : ℕ) (staging : Bytes) (prefix at index n : ℕ) (m : Memory)
    → 0 < size
    → prefix ≤ length staging
    → n ≤ rounds
    → stage_out rounds size staging prefix at index n m ≡ copy_out m (at + index * size) n
unfolding stage_out
stage_out-copy_out zero size staging prefix at index zero m pos room enough =
    sym (copy_out-zero m (at + index * size))
stage_out-copy_out zero size staging prefix at index (suc n) m pos room enough =
    absurd (omega arith)
stage_out-copy_out (suc rounds) size staging prefix at index zero m pos room enough =
    sym (copy_out-zero m (at + index * size))
stage_out-copy_out (suc rounds) size staging prefix at index (suc n) m pos room enough =
    let here : ℕ = at + index * size in
    let len : ℕ = min size (suc n) in
    let filled : Bytes = fill_staging staging prefix (copy_out m here len) in
    ap₂ (λ a b. a ++ b) (slice-fill_read staging prefix here len m room)
      (stage_out-copy_out rounds size filled prefix at (index + 1) (suc n - len) m pos
          (fill_staging-long staging prefix (copy_out m here len) room) (omega arith)
        ∙ ap₂ (λ p k. copy_out m p k) (omega arith) (omega arith))
    ∙ copy_out-min m here size (suc n)

prefix_fits : (x : ℕ) → bit_and x 7 ≤ length staging_buffer
unfolding staging_buffer
prefix_fits x = omega (arith, bit_and_mask 3 x, length-replicate {A = ℕ} 4104 0)

-- `copy_to_shared` leaves the memory that a plain copy of the bytes leaves, whatever the
-- addresses, so staging changes nothing.
pub copy_to_shared-copy_in :
    (base from : ℕ) (bytes : Bytes) (at : ℕ) (m : Memory)
    → copy_to_shared base from bytes at m ≡ copy_in m at bytes
unfolding copy_to_shared
copy_to_shared-copy_in base from bytes at m =
    elim (Bool-cases (leb 64 (length bytes) && misaligned from (base + at))) [
      | inl staged ↦ rw staged (
          stage_in-copy_in (length bytes) 4096 staging_buffer (bit_and (base + at) 7) at 0 bytes m
            (omega arith) (prefix_fits (base + at)) (omega arith)
          ∙ ap (λ k. copy_in m k bytes) (omega arith))
      | inr plain ↦ rw plain
    ]

-- `copy_from_shared` reads the bytes that a plain copy reads, whatever the addresses.
pub copy_from_shared-copy_out :
    (base to at n : ℕ) (m : Memory) → copy_from_shared base to at n m ≡ copy_out m at n
unfolding copy_from_shared
copy_from_shared-copy_out base to at n m =
    elim (Bool-cases (leb 64 n && misaligned (base + at) to)) [
      | inl staged ↦ rw staged (
          stage_out-copy_out n 4096 staging_buffer (bit_and (base + at) 7) at 0 n m (omega arith)
            (prefix_fits (base + at)) (omega arith)
          ∙ ap (λ k. copy_out m k n) (omega arith))
      | inr plain ↦ rw plain
    ]
