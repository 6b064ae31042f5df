-- ===== src/Cpu/Overflow.antt =====
-- When ADD, ADDI and SUB overflow: the bit tests `AddOverflow` and `SubOverflow` of
-- psxemu/include/psxemu/InstructionHandlers.hpp against the range of an i32.
use native.Mathlib.Nat.{div-add-mod'}
use psx.Base.{
  ℕ, zero, suc, ◌+◌, ◌-◌, ◌*◌, ◌/◌, ◌%◌, ◌^◌, ◌<◌, ◌≡◌, refl, sym, Bool, ◌||◌, bit_and, bit_xor,
  arith, ◌∙◌, ap₂, min,
}
use psx.Base.Bits.{bit_and_cut, bit_xor_cut, bit_and-zero, bit_and_lt, bit_xor_lt}
use psx.Base.Words.{IsWord, add32, sub32, all_ones, signed32}
use psx.Base.Int.{ℤ, pos, negsuc, ◌+ℤ◌, ◌-ℤ◌, ltb_ℤ}
use psx.Cpu.Alu.{add_overflow, sub_overflow}

abbrev h31 : ℕ
h31 = 2 ^ 31

-- A word is its top bit and the rest.
xor_top : (x y : ℕ) → bit_xor x y ≡ bit_xor (x / h31) (y / h31) * h31 + bit_xor (x % h31) (y % h31)
xor_top x y =
    ap₂ bit_xor (sym (div-add-mod' x h31)) (sym (div-add-mod' y h31))
    ∙ bit_xor_cut 31 (x / h31) (y / h31) (x % h31) (y % h31) (omega arith) (omega arith)

and_top : (x y : ℕ) → bit_and x y ≡ bit_and (x / h31) (y / h31) * h31 + bit_and (x % h31) (y % h31)
and_top x y =
    ap₂ bit_and (sym (div-add-mod' x h31)) (sym (div-add-mod' y h31))
    ∙ bit_and_cut 31 (x / h31) (y / h31) (x % h31) (y % h31) (omega arith) (omega arith)

xor_top_bit : (x y : ℕ) → bit_xor x y / h31 ≡ bit_xor (x / h31) (y / h31)
xor_top_bit x y =
    omega (arith, xor_top x y, bit_xor_lt 31 (x % h31) (y % h31) (omega arith) (omega arith))

and_top_bit : (x y : ℕ) → bit_and x y / h31 ≡ bit_and (x / h31) (y / h31)
and_top_bit x y =
    omega (arith, and_top x y, bit_and_lt 31 (x % h31) (y % h31) (omega arith) (omega arith))

-- The mask 2 ^ 31 takes the top bit of a word.
and_sign : (x : ℕ) → bit_and x 0x8000_0000 ≡ bit_and (x / h31) 1 * h31
and_sign x = omega (arith, and_top x 0x8000_0000, bit_and-zero (x % h31))

-- Exclusive or and conjunction of single bits.
xor_bit : (a b : ℕ) → a < 2 → b < 2 → bit_xor a b ≡ (a + b) % 2
xor_bit zero zero p q = refl
xor_bit zero (suc zero) p q = refl
xor_bit zero (suc (suc b)) p q = absurd (omega arith)
xor_bit (suc zero) zero p q = refl
xor_bit (suc zero) (suc zero) p q = refl
xor_bit (suc zero) (suc (suc b)) p q = absurd (omega arith)
xor_bit (suc (suc a)) b p q = absurd (omega arith)

and_bit : (a b : ℕ) → a < 2 → b < 2 → bit_and a b ≡ min a b
and_bit zero zero p q = refl
and_bit zero (suc zero) p q = refl
and_bit zero (suc (suc b)) p q = absurd (omega arith)
and_bit (suc zero) zero p q = refl
and_bit (suc zero) (suc zero) p q = refl
and_bit (suc zero) (suc (suc b)) p q = absurd (omega arith)
and_bit (suc (suc a)) b p q = absurd (omega arith)

-- The top bit of the exclusive or of two words.
sign_xor : (x y : ℕ) → IsWord x → IsWord y → bit_xor x y / h31 ≡ (x / h31 + y / h31) % 2
sign_xor x y hx hy = xor_top_bit x y ∙ xor_bit (x / h31) (y / h31) (omega arith) (omega arith)

sign_and : (x y : ℕ) → IsWord x → IsWord y → bit_and x y / h31 ≡ min (x / h31) (y / h31)
sign_and x y hx hy = and_top_bit x y ∙ and_bit (x / h31) (y / h31) (omega arith) (omega arith)

-- The range of an i32.
abbrev pub out_of_range : ℤ → Bool
out_of_range z = ltb_ℤ z (negsuc (2 ^ 31 - 1)) || ltb_ℤ (pos (2 ^ 31 - 1)) z

-- ADD and ADDI overflow exactly when the sum of the two signed operands is outside the range of an i32.
pub add_overflow_lem :
    (l r : ℕ) → IsWord l → IsWord r → add_overflow l r ≡ out_of_range (signed32 l +ℤ signed32 r)
unfolding add_overflow ◌+ℤ◌
add_overflow_lem l r hl hr =
    let x : ℕ = bit_xor l r in
    let y : ℕ = bit_xor l (add32 l r) in
    let hx : IsWord x = bit_xor_lt 32 l r hl hr in
    let hy : IsWord y = bit_xor_lt 32 l (add32 l r) hl (omega arith) in
    let top : bit_and (all_ones - x) y / h31 ≡ min ((all_ones - x) / h31) (y / h31) =
      sign_and (all_ones - x) y (omega arith) hy in
    ground (
      arith,
      and_sign (bit_and (all_ones - x) y),
      and_bit (bit_and (all_ones - x) y / h31) 1 (omega (arith, top)) (omega arith),
      top,
      sign_xor l r hl hr,
      sign_xor l (add32 l r) hl (omega arith),
    )

-- SUB overflows exactly when the difference of the two signed operands is outside the range of an i32.
pub sub_overflow_lem :
    (l r : ℕ) → IsWord l → IsWord r → sub_overflow l r ≡ out_of_range (signed32 l -ℤ signed32 r)
unfolding sub_overflow ◌-ℤ◌
sub_overflow_lem l r hl hr = ground (
  arith,
  sign_and (bit_xor l r) (bit_xor l (sub32 l r)) (bit_xor_lt 32 l r hl hr)
      (bit_xor_lt 32 l (sub32 l r) hl (omega arith)),
  sign_xor l r hl hr,
  sign_xor l (sub32 l r) hl (omega arith),
)
