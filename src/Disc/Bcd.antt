-- ===== src/Disc/Bcd.antt =====
-- bcd_to_normal of psxemu/include/psxemu/CdLocation.hpp: the decimal number written in the nibbles of
-- a u64. Sixteen nibbles stay below 2 ^ 64, so the source's sums do not wrap.
use psx.Base.{
  ℕ, zero, suc, ◌+◌, ◌*◌, ◌/◌, ◌%◌, ◌^◌, ◌≤◌, ◌<◌, ◌≡◌, ap, ◌∙◌, arith, ◌==◌, if◌then◌else◌,
}
use native.Mathlib.Nat.{pow-suc, div-add-mod'}

-- The loop, on as much fuel as a u64 has nibbles.
bcd_loop : ℕ → ℕ → ℕ → ℕ → ℕ
bcd_loop zero value result curr_power = result
bcd_loop (suc fuel) value result curr_power =
    let rest = bcd_loop fuel (value / 16) (result + value % 16 * curr_power) (curr_power * 10) in
    if value == 0 then result else rest

pub bcd_to_normal : ℕ → ℕ
bcd_to_normal value = bcd_loop 16 value 0 1

-- The last `k` decimal digits of a number, each in a nibble.
pub to_bcd : ℕ → ℕ → ℕ
to_bcd zero n = 0
to_bcd (suc k) n = n % 10 + 16 * to_bcd k (n / 10)

to_bcd-zero : (k n : ℕ) → n < 10 ^ k → to_bcd k n ≡ 0 → n ≡ 0
unfolding to_bcd
to_bcd-zero zero n small h = omega arith
to_bcd-zero (suc k) n small h =
    let ten : 10 ^ suc k ≡ 10 ^ k * 10 = pow-suc 10 k in
    let rest = to_bcd-zero k (n / 10) (omega (arith, ten)) (omega arith) in omega arith

join_digits : (q d p : ℕ) → d * p + q * (p * 10) ≡ (q * 10 + d) * p
join_digits q d p = grind arith

append_digit : (n p : ℕ) → n % 10 * p + n / 10 * (p * 10) ≡ n * p
append_digit n p = join_digits (n / 10) (n % 10) p ∙ ap (λ m. m * p) (div-add-mod' n 10)

bcd_loop-to_bcd :
    (k fuel n result p : ℕ)
    → k ≤ fuel
    → n < 10 ^ k
    → bcd_loop fuel (to_bcd k n) result p ≡ result + n * p
unfolding bcd_loop to_bcd
bcd_loop-to_bcd zero zero n result p enough small = ground arith
bcd_loop-to_bcd zero (suc fuel) n result p enough small = ground arith
bcd_loop-to_bcd (suc k) zero n result p enough small = absurd (omega arith)
bcd_loop-to_bcd (suc k) (suc fuel) n result p enough small =
    let ten : 10 ^ suc k ≡ 10 ^ k * 10 = pow-suc 10 k in
    let rest =
      bcd_loop-to_bcd k fuel (n / 10) (result + n % 10 * p) (p * 10) (omega arith)
        (omega (arith, ten)) in
    let low : (n % 10 + 16 * to_bcd k (n / 10)) % 16 ≡ n % 10 = omega arith in
    let high : (n % 10 + 16 * to_bcd k (n / 10)) / 16 ≡ to_bcd k (n / 10) = omega arith in
    let digits = append_digit n p in ground (arith, to_bcd-zero (suc k) n)

-- A number of at most sixteen decimal digits is read back from its nibbles.
pub bcd_to_normal-to_bcd : (k n : ℕ) → k ≤ 16 → n < 10 ^ k → bcd_to_normal (to_bcd k n) ≡ n
unfolding bcd_to_normal
bcd_to_normal-to_bcd k n few small = omega (arith, bcd_loop-to_bcd k 16 n 0 1 few small)
