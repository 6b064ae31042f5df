-- ===== src/Dma/Vector.antt =====
-- The vector unit's transfer of an ordering table: laws of `SimdTransfer` of
-- psxemu/source/psxemu/OTDma.cpp.

use psx.Base.{
  true, false, ℕ, zero, suc, ◌+◌, ◌-◌, ◌*◌, ◌/◌, ◌%◌, ◌^◌, ◌<◌, ◌≤◌, ◌≡◌, refl, arith, ◌==◌, ◌∙◌,
}
use psx.Base.Words.{sub32}
use psx.Cpu.State.{update}
use psx.Dma.Ordering.{
  Transfer, end_marker, ram_index, entry, fast_words, fast_transfer, store_lanes, simd_blocks,
  simd_transfer, transfer,
}

-- Words above the table keep their values.
fast_words_above :
    (n base : ℕ) (ram : ℕ → ℕ) (i : ℕ)
    → base < 2 ^ 21
    → base % 4 ≡ 0
    → 4 * n ≤ base + 4
    → base / 4 < i
    → (fast_words n base ram).1 i ≡ ram i
unfolding fast_words
fast_words_above zero base ram i low aligned room above = refl
fast_words_above (suc zero) base ram i low aligned room above = ground arith
fast_words_above (suc (suc n)) base ram i low aligned room above =
    let step : update ram (ram_index base) (entry base (suc n)) i ≡ ram i = ground arith in
    fast_words_above (suc n) (sub32 base 4) (update ram (ram_index base) (entry base (suc n))) i
      (omega arith) (omega arith) (omega arith) (omega arith)
    ∙ step

-- The word-by-word loop links the word `k` below the base to the next, or ends the list there.
fast_words_at :
    (n k base : ℕ) (ram : ℕ → ℕ)
    → k < n
    → base < 2 ^ 21
    → base % 4 ≡ 0
    → 4 * n ≤ base + 4
    → (fast_words n base ram).1 (base / 4 - k) ≡ entry (base - 4 * k) (n - 1 - k)
unfolding fast_words
fast_words_at zero k base ram h low aligned room = absurd (omega arith)
fast_words_at (suc zero) zero base ram h low aligned room = ground arith
fast_words_at (suc zero) (suc k) base ram h low aligned room = absurd (omega arith)
fast_words_at (suc (suc n)) zero base ram h low aligned room =
    let ram' = update ram (ram_index base) (entry base (suc n)) in
    fast_words_above (suc n) (sub32 base 4) ram' (base / 4 - 0) (omega arith) (omega arith)
      (omega arith) (omega arith)
    ∙ ground arith
fast_words_at (suc (suc n)) (suc k) base ram h low aligned room =
    let ram' = update ram (ram_index base) (entry base (suc n)) in
    let index : base / 4 - suc k ≡ sub32 base 4 / 4 - k = omega arith in
    let address : base - 4 * suc k ≡ sub32 base 4 - 4 * k = omega arith in
    let left : suc (suc n) - 1 - suc k ≡ suc n - 1 - k = omega arith in
    rw (index, address, left)
      (fast_words_at (suc n) k (sub32 base 4) ram' (omega arith) (omega arith) (omega arith)
        (omega arith))

-- The last block stores the end marker in its lowest word.
store_lanes_first :
    (base first : ℕ) (ram : ℕ → ℕ)
    → base < 2 ^ 21
    → base % 4 ≡ 0
    → 32 ≤ base
    → store_lanes 8 0 base first ram (base / 4 - 7) ≡ first
unfolding store_lanes
store_lanes_first base first ram low aligned room = ground arith

simd_blocks-one :
    (base : ℕ) (ram : ℕ → ℕ)
    → simd_blocks 1 base ram ≡ (sub32 base 32, store_lanes 8 0 base end_marker ram)
unfolding simd_blocks
simd_blocks-one base ram = refl

simd_blocks-more :
    (q base : ℕ) (ram : ℕ → ℕ)
    → simd_blocks (suc (suc q)) base ram
      ≡ simd_blocks (suc q) (sub32 base 32) (store_lanes 8 0 base (sub32 base 32) ram)
unfolding simd_blocks
simd_blocks-more q base ram = let more : (suc q == 0) ≡ false = ground arith in rw more refl

simd_blocks_last :
    (q base : ℕ) (ram : ℕ → ℕ)
    → 0 < q
    → base < 2 ^ 21
    → base % 4 ≡ 0
    → 32 * q ≤ base
    → ((simd_blocks q base ram).0 ≡ base - 32 * q)
      × ((simd_blocks q base ram).1 (base / 4 - (8 * q - 1)) ≡ end_marker)
simd_blocks_last zero base ram h low aligned room = absurd (omega arith)
simd_blocks_last (suc zero) base ram h low aligned room =
    rw (simd_blocks-one base ram)
      (omega arith, store_lanes_first base end_marker ram low aligned room)
simd_blocks_last (suc (suc q)) base ram h low aligned room =
    let first : ℕ = sub32 base 32 in
    let (moved, marked) =
      simd_blocks_last (suc q) first (store_lanes 8 0 base first ram) (omega arith) (omega arith)
        (omega arith) (omega arith) in
    let index : base / 4 - (8 * suc (suc q) - 1) ≡ first / 4 - (8 * suc q - 1) = omega arith in
    rw (simd_blocks-more q base ram, index) (moved ∙ omega arith, marked)

-- The vector unit cuts the table short. A table of some blocks of eight words and at least one word
-- more, in RAM and above address 0: after the word-by-word loop the last word of the last block links
-- to the words that follow; after the vector unit's transfer it ends the list, though they follow.
pub simd_cuts_list :
    (t : Transfer)
    → let base = t.shadow_base_address in
      let last = base / 4 - (t.word_count / 8 * 8 - 1) in
      8 ≤ t.word_count
      → 0 < t.word_count % 8
      → base < 2 ^ 21
      → base % 4 ≡ 0
      → 4 * t.word_count ≤ base
      → ((transfer false t).ram last ≡ base - 32 * (t.word_count / 8))
        × ((transfer true t).ram last ≡ end_marker)
unfolding transfer fast_transfer simd_transfer
simd_cuts_list t blocks more low aligned room =
    let base = t.shadow_base_address in
    let q = t.word_count / 8 in
    let (moved, marked) = simd_blocks_last q base t.ram (omega arith) low aligned (omega arith) in
    let swap : q * 8 ≡ 8 * q = omega arith in
    (
      fast_words_at t.word_count (q * 8 - 1) base t.ram (omega arith) low aligned (omega arith)
          ∙ ground arith,
      rw (moved, swap)
          (fast_words_above (t.word_count % 8) (base - 32 * q) (simd_blocks q base t.ram).1
              (base / 4 - (8 * q - 1)) (omega arith) (omega arith) (omega arith) (omega arith)
            ∙ marked),
    )
