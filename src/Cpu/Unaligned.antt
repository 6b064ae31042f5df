-- ===== src/Cpu/Unaligned.antt =====
-- Words that are not aligned: the pairs LWR, LWL and SWR, SWL of
-- psxemu/include/psxemu/InstructionHandlers.hpp. `k` is the byte of the aligned word at which the
-- unaligned one begins; the second instruction of a pair works at byte `k - 1` of the next word.
use psx.Base.{
  ℕ, zero, suc, ◌+◌, ◌-◌, ◌*◌, ◌/◌, ◌%◌, ◌^◌, ◌<◌, ◌≡◌, refl, bit_and, bit_or, arith, ◌∙◌, ap, ap₂,
  sym,
}
use native.Mathlib.Nat.{div-add-mod', mod-lt, mod-eq_of_lt}
use psx.Base.Bits.{bit_or_cut, bit_and_cut, bit_and_mask, bit_and-zero, bit_or-zero, zero-bit_or}
use psx.Base.Words.{IsWord}
use psx.Cpu.Memory.{lwl_merge, lwr_merge, swl_merge, swr_merge}

-- The high part of one word with the low part of another, in either order.
join : (k q r : ℕ) → r < 2 ^ k → bit_or (q * 2 ^ k) r ≡ q * 2 ^ k + r
join k q r h =
    let left : q * 2 ^ k + 0 ≡ q * 2 ^ k = omega arith in
    let right : 0 * 2 ^ k + r ≡ r = omega arith in
    let cut : bit_or (q * 2 ^ k) r ≡ bit_or q 0 * 2 ^ k + bit_or 0 r =
      ap₂ bit_or (sym left) (sym right) ∙ bit_or_cut k q 0 0 r (omega arith) h in
    cut ∙ ap₂ (λ s t. s * 2 ^ k + t) (bit_or-zero q) (zero-bit_or r)

join_low : (k q r : ℕ) → r < 2 ^ k → bit_or r (q * 2 ^ k) ≡ q * 2 ^ k + r
join_low k q r h =
    let left : 0 * 2 ^ k + r ≡ r = omega arith in
    let right : q * 2 ^ k + 0 ≡ q * 2 ^ k = omega arith in
    let cut : bit_or r (q * 2 ^ k) ≡ bit_or 0 q * 2 ^ k + bit_or r 0 =
      ap₂ bit_or (sym left) (sym right) ∙ bit_or_cut k 0 q r 0 h (omega arith) in
    cut ∙ ap₂ (λ s t. s * 2 ^ k + t) (zero-bit_or q) (bit_or-zero r)

-- A mask of `j` ones over `k` zeros keeps the high part.
keep_high :
    (k j x m : ℕ)
    → 0 < 2 ^ k
    → x / 2 ^ k < 2 ^ j
    → m + 1 ≡ 2 ^ j
    → bit_and x (m * 2 ^ k) ≡ x / 2 ^ k * 2 ^ k
keep_high k j x m hk h hm =
    let left : x ≡ x / 2 ^ k * 2 ^ k + x % 2 ^ k = sym (div-add-mod' x (2 ^ k)) in
    let right : m * 2 ^ k ≡ m * 2 ^ k + 0 = omega arith in
    let mask : bit_and (x / 2 ^ k) m ≡ x / 2 ^ k =
      bit_and_mask j (x / 2 ^ k) m hm ∙ mod-eq_of_lt h in
    let cut : bit_and x (m * 2 ^ k) ≡ bit_and (x / 2 ^ k) m * 2 ^ k + bit_and (x % 2 ^ k) 0 =
      ap₂ bit_and left right ∙ bit_and_cut k (x / 2 ^ k) m (x % 2 ^ k) 0 (mod-lt x hk) hk in
    cut ∙ ap₂ (λ s t. s * 2 ^ k + t) mask (bit_and-zero (x % 2 ^ k)) ∙ omega arith

module _ (x v : ℕ) (hx : IsWord x) (hv : IsWord v) where
  lwr_one : lwr_merge 1 x v ≡ x / 2 ^ 24 * 2 ^ 24 + v / 2 ^ 8
  unfolding lwr_merge
  lwr_one =
      ap (λ t. bit_or t (v / 2 ^ 8)) (keep_high 24 8 x 0xff (omega arith) (omega arith) refl)
      ∙ join 24 (x / 2 ^ 24) (v / 2 ^ 8) (omega arith)

  lwr_two : lwr_merge 2 x v ≡ x / 2 ^ 16 * 2 ^ 16 + v / 2 ^ 16
  unfolding lwr_merge
  lwr_two =
      ap (λ t. bit_or t (v / 2 ^ 16)) (keep_high 16 16 x 0xffff (omega arith) (omega arith) refl)
      ∙ join 16 (x / 2 ^ 16) (v / 2 ^ 16) (omega arith)

  lwr_three : lwr_merge 3 x v ≡ x / 2 ^ 8 * 2 ^ 8 + v / 2 ^ 24
  unfolding lwr_merge
  lwr_three =
      ap (λ t. bit_or t (v / 2 ^ 24)) (keep_high 8 24 x 0xff_ffff (omega arith) (omega arith) refl)
      ∙ join 8 (x / 2 ^ 8) (v / 2 ^ 24) (omega arith)

  low_and_high :
      (k m : ℕ) (h : m + 1 ≡ 2 ^ k) (q : ℕ)
      → bit_or (bit_and x m) (q * 2 ^ k) ≡ q * 2 ^ k + x % 2 ^ k
  low_and_high k m h q =
      ap (λ t. bit_or t (q * 2 ^ k)) (bit_and_mask k x m h)
      ∙ join_low k q (x % 2 ^ k) (mod-lt x (omega arith))

  lwl_zero : lwl_merge 0 x v ≡ v % 2 ^ 8 * 2 ^ 24 + x % 2 ^ 24
  unfolding lwl_merge
  lwl_zero =
      ap (bit_or (bit_and x 0xff_ffff)) (omega arith) ∙ low_and_high 24 0xff_ffff refl (v % 2 ^ 8)

  lwl_one : lwl_merge 1 x v ≡ v % 2 ^ 16 * 2 ^ 16 + x % 2 ^ 16
  unfolding lwl_merge
  lwl_one = ap (bit_or (bit_and x 0xffff)) (omega arith) ∙ low_and_high 16 0xffff refl (v % 2 ^ 16)

  lwl_two : lwl_merge 2 x v ≡ v % 2 ^ 24 * 2 ^ 8 + x % 2 ^ 8
  unfolding lwl_merge
  lwl_two = ap (bit_or (bit_and x 0xff)) (omega arith) ∙ low_and_high 8 0xff refl (v % 2 ^ 24)

  swl_zero : swl_merge 0 x v ≡ x / 2 ^ 8 * 2 ^ 8 + v / 2 ^ 24
  unfolding swl_merge
  swl_zero =
      ap₂ bit_or (keep_high 8 24 x 0xff_ffff (omega arith) (omega arith) refl) (omega arith)
      ∙ join 8 (x / 2 ^ 8) (v / 2 ^ 24) (omega arith)

  swl_one : swl_merge 1 x v ≡ x / 2 ^ 16 * 2 ^ 16 + v / 2 ^ 16
  unfolding swl_merge
  swl_one =
      ap₂ bit_or (keep_high 16 16 x 0xffff (omega arith) (omega arith) refl) (omega arith)
      ∙ join 16 (x / 2 ^ 16) (v / 2 ^ 16) (omega arith)

  swl_two : swl_merge 2 x v ≡ x / 2 ^ 24 * 2 ^ 24 + v / 2 ^ 8
  unfolding swl_merge
  swl_two =
      ap₂ bit_or (keep_high 24 8 x 0xff (omega arith) (omega arith) refl) (omega arith)
      ∙ join 24 (x / 2 ^ 24) (v / 2 ^ 8) (omega arith)

  swr_one : swr_merge 1 x v ≡ v % 2 ^ 24 * 2 ^ 8 + x % 2 ^ 8
  unfolding swr_merge
  swr_one = ap (bit_or (bit_and x 0xff)) (omega arith) ∙ low_and_high 8 0xff refl (v % 2 ^ 24)

  swr_two : swr_merge 2 x v ≡ v % 2 ^ 16 * 2 ^ 16 + x % 2 ^ 16
  unfolding swr_merge
  swr_two = ap (bit_or (bit_and x 0xffff)) (omega arith) ∙ low_and_high 16 0xffff refl (v % 2 ^ 16)

  swr_three : swr_merge 3 x v ≡ v % 2 ^ 8 * 2 ^ 24 + x % 2 ^ 24
  unfolding swr_merge
  swr_three =
      ap (bit_or (bit_and x 0xff_ffff)) (omega arith) ∙ low_and_high 24 0xff_ffff refl (v % 2 ^ 8)

-- LWR at byte `k` of one word and LWL at byte `k - 1` of the next load the 32 bits that begin at byte
-- `k`, whatever the register held before.
pub unaligned_load :
    (k x low high : ℕ)
    → 0 < k
    → k < 4
    → IsWord x
    → IsWord low
    → IsWord high
    → lwl_merge (k - 1) (lwr_merge k x low) high ≡ (low + high * 2 ^ 32) / 2 ^ (8 * k) % 2 ^ 32
unaligned_load zero x low high p q hx hl hh = absurd (omega arith)
unaligned_load (suc zero) x low high p q hx hl hh =
    rw (lwr_one x low hx hl, lwl_zero (x / 2 ^ 24 * 2 ^ 24 + low / 2 ^ 8) high (omega arith) hh)
      (omega arith)
unaligned_load (suc (suc zero)) x low high p q hx hl hh =
    rw (lwr_two x low hx hl, lwl_one (x / 2 ^ 16 * 2 ^ 16 + low / 2 ^ 16) high (omega arith) hh)
      (omega arith)
unaligned_load (suc (suc (suc zero))) x low high p q hx hl hh =
    rw (lwr_three x low hx hl, lwl_two (x / 2 ^ 8 * 2 ^ 8 + low / 2 ^ 24) high (omega arith) hh)
      (omega arith)
unaligned_load (suc (suc (suc (suc k)))) x low high p q hx hl hh = absurd (omega arith)

-- SWR at byte `k` of one word and SWL at byte `k - 1` of the next store the 32 bits of `v` there: the
-- two words are then the bytes of `low` before byte `k`, `v`, and the bytes of `high` from `k` on.
pub unaligned_store :
    (k v low high : ℕ)
    → 0 < k
    → k < 4
    → IsWord v
    → IsWord low
    → IsWord high
    → swr_merge k low v + swl_merge (k - 1) high v * 2 ^ 32
      ≡ low % 2 ^ (8 * k) + v * 2 ^ (8 * k) + high / 2 ^ (8 * k) * 2 ^ (8 * k) * 2 ^ 32
unaligned_store zero v low high p q hv hl hh = absurd (omega arith)
unaligned_store (suc zero) v low high p q hv hl hh =
    rw (swr_one low v hl hv, swl_zero high v hh hv) (omega arith)
unaligned_store (suc (suc zero)) v low high p q hv hl hh =
    rw (swr_two low v hl hv, swl_one high v hh hv) (omega arith)
unaligned_store (suc (suc (suc zero))) v low high p q hv hl hh =
    rw (swr_three low v hl hv, swl_two high v hh hv) (omega arith)
unaligned_store (suc (suc (suc (suc k)))) v low high p q hv hl hh = absurd (omega arith)
