-- ===== src/Base/Bits.antt =====
-- The bitwise operators at variables: each acts digit by digit, so a number may be cut at any bit.
-- The C++ code masks and merges words with `&`, `|` and `^`; these laws turn that into arithmetic.
use Prim.Native.Nat.{max, digits, bitwise, bit_and-bitwise, bit_or-bitwise, bit_xor-bitwise, differ}
use native.Mathlib.Numerals.{unary_clauses}
use native.Mathlib.Nat.{le_refl, pow-suc, div-add-mod', mod-lt}
use psx.Base.{
  ℕ, zero, suc, ◌+◌, ◌-◌, ◌*◌, ◌/◌, ◌%◌, ◌^◌, ◌≤◌, ◌<◌, min, bit_and, bit_or, bit_xor, ◌≡◌, refl,
  sym, ap, ◌∙◌, arith,
}

-- The native operators run on as much fuel as the first number has units; more changes nothing, so
-- the number without its lowest digit leaves fuel over.
module _ (none_left : ℕ → ℕ) (f : ℕ → ℕ → ℕ) where
  spare_fuel :
      (used spare x y : ℕ)
      → x ≤ used
      → digits none_left f (used + spare) x y ≡ digits none_left f used x y
  spare_fuel zero zero zero y enough = refl
  spare_fuel zero (suc spare) zero y enough = simp unary_clauses refl
  spare_fuel (suc used) spare zero y enough =
      let one_more : suc used + spare ≡ suc (used + spare) = omega arith in rw one_more refl
  spare_fuel zero spare (suc x) y enough = absurd (omega arith)
  spare_fuel (suc used) spare (suc x) y enough =
      let one_more : suc used + spare ≡ suc (used + spare) = omega arith in
      rw one_more (
        ap (λ t. t * 2 + f (suc x % 2) (y % 2))
          (spare_fuel used spare (suc x / 2) (y / 2) (omega arith)))

  lowest_digit :
      (x y : ℕ)
      → bitwise none_left f (suc x) y
        ≡ bitwise none_left f (suc x / 2) (y / 2) * 2 + f (suc x % 2) (y % 2)
  lowest_digit x y =
      let left_over : suc x / 2 + (x - suc x / 2) ≡ x = omega arith in
      let shorter = spare_fuel (suc x / 2) (x - suc x / 2) (suc x / 2) (y / 2) (omega arith) in
      ap (λ t. t * 2 + f (suc x % 2) (y % 2))
        (sym (ap (λ n. digits none_left f n (suc x / 2) (y / 2)) left_over) ∙ shorter)

-- The exclusive or of two digits.
abbrev pub digit_xor : ℕ → ℕ → ℕ
digit_xor a b = (a + b) % 2

differ_lt : (a b : ℕ) → a < 2 → b < 2 → differ a b ≡ digit_xor a b
differ_lt zero b p q = omega arith
differ_lt (suc zero) zero p q = refl
differ_lt (suc zero) (suc zero) p q = refl
differ_lt (suc zero) (suc (suc b)) p q = absurd (omega arith)
differ_lt (suc (suc a)) b p q = absurd (omega arith)

-- `F` is computed from the quotients by two and, by `f`, from the lowest digits.
abbrev Digitwise : (ℕ → ℕ → ℕ) → (ℕ → ℕ → ℕ) → Type 0
Digitwise F f = (x y : ℕ) → F x y ≡ F (x / 2) (y / 2) * 2 + f (x % 2) (y % 2)

pub bit_xor_step : Digitwise bit_xor digit_xor
bit_xor_step zero y = simp bit_xor-bitwise (omega arith)
bit_xor_step (suc x) y = simp bit_xor-bitwise (
    lowest_digit (λ y. y) differ x y
    ∙ ap (λ t. bitwise (λ y. y) differ (suc x / 2) (y / 2) * 2 + t)
        (differ_lt (suc x % 2) (y % 2) (omega arith) (omega arith)))

pub bit_or_step : Digitwise bit_or max
bit_or_step zero y = simp bit_or-bitwise (omega arith)
bit_or_step (suc x) y = simp bit_or-bitwise (lowest_digit (λ t. t) max x y)

pub bit_and_step : Digitwise bit_and min
bit_and_step zero y = simp bit_and-bitwise (omega arith)
bit_and_step (suc x) y = simp bit_and-bitwise (lowest_digit (λ t. 0) min x y)

-- An operator that works on each digit by itself.
module _ (F f : ℕ → ℕ → ℕ) (step : Digitwise F f) (nothing : F 0 0 ≡ 0) where
  digitwise_double :
      (p q s r t : ℕ)
      → F (q * p + r / 2) (s * p + t / 2) ≡ F q s * p + F (r / 2) (t / 2)
      → F (q * (p * 2) + r) (s * (p * 2) + t) ≡ F q s * (p * 2) + F r t
  digitwise_double p q s r t h =
      let left : (q * (p * 2) + r) / 2 ≡ q * p + r / 2 = omega arith in
      let right : (s * (p * 2) + t) / 2 ≡ s * p + t / 2 = omega arith in
      let odd_left : (q * (p * 2) + r) % 2 ≡ r % 2 = omega arith in
      let odd_right : (s * (p * 2) + t) % 2 ≡ t % 2 = omega arith in
      rw (step (q * (p * 2) + r) (s * (p * 2) + t), step r t, left, right, odd_left, odd_right, h)
        (omega arith)

  pub digitwise_cut :
      (k q s r t : ℕ)
      → r < 2 ^ k
      → t < 2 ^ k
      → F (q * 2 ^ k + r) (s * 2 ^ k + t) ≡ F q s * 2 ^ k + F r t
  digitwise_cut zero q s zero zero hr ht = rw nothing (ground arith)
  digitwise_cut zero q s (suc r) t hr ht = absurd (omega arith)
  digitwise_cut zero q s zero (suc t) hr ht = absurd (omega arith)
  digitwise_cut (suc k) q s r t hr ht =
      let half : 2 ^ suc k ≡ 2 ^ k * 2 = pow-suc 2 k in
      rw half (
        digitwise_double (2 ^ k) q s r t
          (digitwise_cut k q s (r / 2) (t / 2) (omega (arith, half)) (omega (arith, half))))

-- Cutting both words at one bit cuts the result there.
pub bit_and_cut :
    (k q s r t : ℕ)
    → r < 2 ^ k
    → t < 2 ^ k
    → bit_and (q * 2 ^ k + r) (s * 2 ^ k + t) ≡ bit_and q s * 2 ^ k + bit_and r t
bit_and_cut = digitwise_cut bit_and min bit_and_step refl

pub bit_or_cut :
    (k q s r t : ℕ)
    → r < 2 ^ k
    → t < 2 ^ k
    → bit_or (q * 2 ^ k + r) (s * 2 ^ k + t) ≡ bit_or q s * 2 ^ k + bit_or r t
bit_or_cut = digitwise_cut bit_or max bit_or_step refl

pub bit_xor_cut :
    (k q s r t : ℕ)
    → r < 2 ^ k
    → t < 2 ^ k
    → bit_xor (q * 2 ^ k + r) (s * 2 ^ k + t) ≡ bit_xor q s * 2 ^ k + bit_xor r t
bit_xor_cut = digitwise_cut bit_xor digit_xor bit_xor_step refl

-- Beside a zero word every digit is kept, or every digit is dropped.
module _ (F f : ℕ → ℕ → ℕ) (step : Digitwise F f) where
  digitwise_keep : (bound x : ℕ) → x ≤ bound → F 0 0 ≡ 0 → ((d : ℕ) → d < 2 → f d 0 ≡ d) → F x 0 ≡ x
  digitwise_keep bound zero small nothing keep = nothing
  digitwise_keep zero (suc x) small nothing keep = absurd (omega arith)
  digitwise_keep (suc bound) (suc x) small nothing keep =
      let rest = digitwise_keep bound (suc x / 2) (omega arith) nothing keep in
      rw (step (suc x) 0, rest, keep (suc x % 2) (omega arith)) (omega arith)

  digitwise_drop : (bound x : ℕ) → x ≤ bound → F 0 0 ≡ 0 → ((d : ℕ) → f d 0 ≡ 0) → F x 0 ≡ 0
  digitwise_drop bound zero small nothing drop = nothing
  digitwise_drop zero (suc x) small nothing drop = absurd (omega arith)
  digitwise_drop (suc bound) (suc x) small nothing drop =
      let rest = digitwise_drop bound (suc x / 2) (omega arith) nothing drop in
      rw (step (suc x) 0, rest, drop (suc x % 2)) refl

pub bit_or-zero : (x : ℕ) → bit_or x 0 ≡ x
bit_or-zero x = digitwise_keep bit_or max bit_or_step x x (le_refl x) refl λ d small. omega arith

pub zero-bit_or : (x : ℕ) → bit_or 0 x ≡ x
zero-bit_or x = bit_or-bitwise 0 x

pub bit_and-zero : (x : ℕ) → bit_and x 0 ≡ 0
bit_and-zero x = digitwise_drop bit_and min bit_and_step x x (le_refl x) refl λ d. omega arith

bit_and_ones : (k q r m : ℕ) → r < 2 ^ k → m + 1 ≡ 2 ^ k → bit_and (q * 2 ^ k + r) m ≡ r
bit_and_ones zero q r zero hr hm = rw bit_and-zero (omega arith)
bit_and_ones zero q r (suc m) hr hm = absurd (omega arith)
bit_and_ones (suc k) q r m hr hm =
    let half : 2 ^ suc k ≡ 2 ^ k * 2 = pow-suc 2 k in
    let rest : bit_and (q * 2 ^ k + r / 2) (m / 2) ≡ r / 2 =
      bit_and_ones k q (r / 2) (m / 2) (omega (arith, half)) (omega (arith, half)) in
    let left : (q * (2 ^ k * 2) + r) / 2 ≡ q * 2 ^ k + r / 2 = omega arith in
    rw (half, bit_and_step (q * (2 ^ k * 2) + r) m, left, rest) (omega (arith, half))

-- `a & (2^k - 1)` is the remainder by `2^k`.
pub bit_and_mask : (k a m : ℕ) → m + 1 ≡ 2 ^ k → bit_and a m ≡ a % 2 ^ k
bit_and_mask k a m h =
    let cut : a / 2 ^ k * 2 ^ k + a % 2 ^ k ≡ a = div-add-mod' a (2 ^ k) in
    rw cut at (bit_and_ones k (a / 2 ^ k) (a % 2 ^ k) m (mod-lt a (omega arith)) h)

module _ (F f : ℕ → ℕ → ℕ) (step : Digitwise F f) (nothing : F 0 0 ≡ 0)
    (digit : (a b : ℕ) → a < 2 → b < 2 → f a b < 2) where
  digitwise_lt : (k a b : ℕ) → a < 2 ^ k → b < 2 ^ k → F a b < 2 ^ k
  digitwise_lt zero zero zero ha hb = rw nothing (omega arith)
  digitwise_lt zero (suc a) b ha hb = absurd (omega arith)
  digitwise_lt zero zero (suc b) ha hb = absurd (omega arith)
  digitwise_lt (suc k) a b ha hb =
      let half : 2 ^ suc k ≡ 2 ^ k * 2 = pow-suc 2 k in
      let rest : F (a / 2) (b / 2) < 2 ^ k =
        digitwise_lt k (a / 2) (b / 2) (omega (arith, half)) (omega (arith, half)) in
      rw (step a b) (omega (arith, half, rest, digit (a % 2) (b % 2) (omega arith) (omega arith)))

-- The operators stay within a word of `k` bits.
pub bit_and_lt : (k a b : ℕ) → a < 2 ^ k → b < 2 ^ k → bit_and a b < 2 ^ k
bit_and_lt = digitwise_lt bit_and min bit_and_step refl λ a b p q. omega arith

pub bit_xor_lt : (k a b : ℕ) → a < 2 ^ k → b < 2 ^ k → bit_xor a b < 2 ^ k
bit_xor_lt = digitwise_lt bit_xor digit_xor bit_xor_step refl λ a b p q. omega arith
