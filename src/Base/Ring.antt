-- ===== src/Base/Ring.antt =====
-- Laws of the signed integers of Base/Int, by their two parts, and of their patterns of bits.
use psx.Base.{ℕ, ◌+◌, ◌-◌, ◌*◌, ◌^◌, ◌≡◌, ◌<◌, ap, false, arith}
use psx.Base.Int.{
  ℤ, pos, negsuc, pos_part, neg_part, sub_ℕ, ◌+ℤ◌, ◌-ℤ◌, ◌*ℤ◌, bits_of, signed, leb_ℤ, ltb_ℤ,
}

pub int_ext : (a b : ℤ) → pos_part a + neg_part b ≡ pos_part b + neg_part a → a ≡ b
int_ext a b h = ground arith

pub sub_ℕ_parts : (a b : ℕ) → pos_part (sub_ℕ a b) + b ≡ neg_part (sub_ℕ a b) + a
sub_ℕ_parts a b = ground arith

pub +ℤ_parts :
    (a b : ℤ)
    → pos_part (a +ℤ b) + (neg_part a + neg_part b) ≡ neg_part (a +ℤ b) + (pos_part a + pos_part b)
unfolding ◌+ℤ◌
+ℤ_parts a b = sub_ℕ_parts (pos_part a + pos_part b) (neg_part a + neg_part b)

pub -ℤ_parts :
    (a b : ℤ)
    → pos_part (a -ℤ b) + (neg_part a + pos_part b) ≡ neg_part (a -ℤ b) + (pos_part a + neg_part b)
unfolding ◌-ℤ◌
-ℤ_parts a b = sub_ℕ_parts (pos_part a + neg_part b) (neg_part a + pos_part b)

pub *ℤ_parts :
    (a b : ℤ)
    → pos_part (a *ℤ b) + (pos_part a * neg_part b + neg_part a * pos_part b)
      ≡ neg_part (a *ℤ b) + (pos_part a * pos_part b + neg_part a * neg_part b)
unfolding ◌*ℤ◌
*ℤ_parts a b =
    sub_ℕ_parts (pos_part a * pos_part b + neg_part a * neg_part b)
      (pos_part a * neg_part b + neg_part a * pos_part b)

pub *ℤ_comm : (a b : ℤ) → a *ℤ b ≡ b *ℤ a
*ℤ_comm a b = int_ext _ _ (omega (arith, *ℤ_parts a b, *ℤ_parts b a))

pub -ℤ-*ℤ : (a b c : ℤ) → (a -ℤ b) *ℤ c ≡ a *ℤ c -ℤ b *ℤ c
-ℤ-*ℤ a b c = int_ext _ _ (
    omega (
      arith,
      *ℤ_parts (a -ℤ b) c,
      -ℤ_parts (a *ℤ c) (b *ℤ c),
      *ℤ_parts a c,
      *ℤ_parts b c,
      ap (λ (t : ℕ). t * pos_part c) (-ℤ_parts a b),
      ap (λ (t : ℕ). t * neg_part c) (-ℤ_parts a b),
    ))

pub *ℤ--ℤ : (a b c : ℤ) → c *ℤ (a -ℤ b) ≡ c *ℤ a -ℤ c *ℤ b
*ℤ--ℤ a b c = rw (*ℤ_comm c (a -ℤ b), *ℤ_comm c a, *ℤ_comm c b) (-ℤ-*ℤ a b c)

-- A pattern of bits of a number that fits, and back.
pub bits_of-signed16 : (n : ℕ) → n < 2 ^ 16 → bits_of 16 (signed 16 n) ≡ n
unfolding bits_of signed
bits_of-signed16 n h = ground arith

pub signed-bits_of32 :
    (a : ℤ)
    → leb_ℤ (pos (2 ^ 31)) a ≡ false
    → ltb_ℤ a (negsuc (2 ^ 31 - 1)) ≡ false
    → signed 32 (bits_of 32 a) ≡ a
unfolding bits_of signed
signed-bits_of32 a h k = ground arith
