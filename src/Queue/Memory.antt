-- ===== src/Queue/Memory.antt =====
-- The copies of common/src/queue.rs between private storage and the ring: `copy_to_shared` and
-- `copy_from_shared`, which go through an aligned staging buffer, against plain copies.
pub mod Staging
use privasys_enclave_os_mini.Common.{
  ℕ, zero, suc, ◌+◌, ◌-◌, ◌*◌, ◌≤◌, ◌<◌, bit_and, ◌≡◌, ◌≢◌, refl, sym, ap, ◌∙◌, Bool, true, false,
  not, ◌&&◌, List, [], ◌∷◌, ◌++◌, arith, leb, ◌==◌, if◌then◌else◌, length, take, drop, replicate,
  min, length-append, length-take, length-drop, take-append_left, drop-append_left,
  take-append-drop, length-replicate, Bool-cases, inl, inr,
}
use privasys_enclave_os_mini.Common.Bytes.{Bytes, slice}
use privasys_enclave_os_mini.Common.Words.{bit_and_mask}
use Prim.Native.Nat.{bit_xor}
use mathlib.Core.Path.{ap₂}
use mathlib.Core.List.{append-nil}
use native.Mathlib.Decide.{dec_le}

-- The bytes at and above a base address, by their offset.
abbrev pub Memory : Type 0
Memory = ℕ → ℕ

abbrev pub update : Memory → ℕ → ℕ → Memory
update m i x j = if j == i then x else m j

-- `copy_nonoverlapping` towards the memory, and out of it
unfoldable pub copy_in : Memory → ℕ → Bytes → Memory
copy_in m at [] = m
copy_in m at (x ∷ xs) = copy_in (update m at x) (at + 1) xs

unfoldable pub copy_out : Memory → ℕ → ℕ → Bytes
copy_out m at zero = []
copy_out m at (suc n) = m at ∷ copy_out m (at + 1) n

-- `((source as usize ^ destination as usize) & 7) != 0`
misaligned : ℕ → ℕ → Bool
misaligned a b = not (bit_and (bit_xor a b) 7 == 0)

abbrev chunk_size : ℕ
chunk_size = 4096

-- `Aligned([0; 4096 + 8])`
staging_buffer : Bytes
staging_buffer = replicate (chunk_size + 8) 0

-- `staging.0[prefix..prefix + chunk.len()].copy_from_slice(chunk)`
fill_staging : Bytes → ℕ → Bytes → Bytes
fill_staging staging prefix chunk =
    take prefix staging ++ (chunk ++ drop (prefix + length chunk) staging)

-- The rounds of `data.chunks(size)` with `rounds` of them left; `index` counts them. The staging
-- buffer keeps its content from one round to the next.
stage_in : (rounds size : ℕ) → Bytes → ℕ → ℕ → ℕ → Bytes → Memory → Memory
stage_in zero size staging prefix at index data_ m = m
stage_in (suc rounds) size staging prefix at index [] m = m
stage_in (suc rounds) size staging prefix at index (x ∷ xs) m =
    let chunk = take size (x ∷ xs) in
    let filled = fill_staging staging prefix chunk in
    let source = slice prefix (prefix + length chunk) filled in
    stage_in rounds size filled prefix at (index + 1) (drop size (x ∷ xs))
      (copy_in m (at + index * size) source)

-- `base` is the address of the memory's first byte, `from` that of the data. There are at most as
-- many chunks as bytes.
pub copy_to_shared : (base from : ℕ) → Bytes → ℕ → Memory → Memory
copy_to_shared base from bytes at m =
    let prefix = bit_and (base + at) 7 in
    if leb 64 (length bytes) && misaligned from (base + at)
    then stage_in (length bytes) chunk_size staging_buffer prefix at 0 bytes m
    else copy_in m at bytes

-- The rounds of `out.chunks_mut(size)`, with `n` bytes left to read.
stage_out : (rounds size : ℕ) → Bytes → ℕ → ℕ → ℕ → ℕ → Memory → Bytes
stage_out zero size staging prefix at index n m = []
stage_out (suc rounds) size staging prefix at index zero m = []
stage_out (suc rounds) size staging prefix at index (suc n) m =
    let len = min size (suc n) in
    let filled = fill_staging staging prefix (copy_out m (at + index * size) len) in
    slice prefix (prefix + len) filled
    ++ stage_out rounds size filled prefix at (index + 1) (suc n - len) m

-- `to` is the address of the `n` bytes that are read into.
pub copy_from_shared : (base to : ℕ) → ℕ → ℕ → Memory → Bytes
copy_from_shared base to at n m =
    let prefix = bit_and (base + at) 7 in
    if leb 64 n && misaligned (base + at) to
    then stage_out n chunk_size staging_buffer prefix at 0 n m
    else copy_out m at n
