-- ===== src/Gte/Fifo.antt =====
-- The queue of points and the count of leading bits, as the processor reads them.
use psx.Base.{
  Bool, true, false, Bool, ◌⊎◌, ℕ, ◌+◌, ◌*◌, ◌-◌, ◌/◌, ◌%◌, ◌^◌, ◌≡◌, ◌<◌, ◌≤◌, arith,
  if◌then◌else◌, ltb, ap, ◌∙◌,
}
use psx.Base.Int.{bits_of, signed}
use psx.Base.Ring.{bits_of-signed16}
use psx.Gte.State.{Gte}
use psx.Gte.Saturate.{push_screen_fifo}
use psx.Gte.Registers.{write_data, data_value, write_lzc, countl_zero}
use psx.Gte.Divide.{countl_zero-lem}

-- The two shorts of a word are the word.
halves : (v : ℕ) → v < 2 ^ 32 → v % 2 ^ 16 + v / 2 ^ 16 % 2 ^ 16 * 2 ^ 16 ≡ v
halves v h = omega arith

packed :
    (v : ℕ)
    → v < 2 ^ 32
    → bits_of 16 (signed 16 (v % 2 ^ 16)) + bits_of 16 (signed 16 (v / 2 ^ 16 % 2 ^ 16)) * 2 ^ 16
      ≡ v
packed v h =
    rw
      (
        bits_of-signed16 (v % 2 ^ 16) (omega arith),
        bits_of-signed16 (v / 2 ^ 16 % 2 ^ 16) (omega arith),
      )
      (halves v h)

-- Three writes of SXYP fill the queue of points: SXY0, SXY1 and SXY2 read as the three words in order, and SXYP as
-- the last of them.
pub points_in_order :
    (a b c : ℕ) (g : Gte)
    → a < 2 ^ 32
    → b < 2 ^ 32
    → c < 2 ^ 32
    → let full = write_data 15 c (write_data 15 b (write_data 15 a g)) in
      (data_value 12 full ≡ a)
      × (data_value 13 full ≡ b)
      × (data_value 14 full ≡ c)
      × (data_value 15 full ≡ c)
unfolding write_data data_value push_screen_fifo
points_in_order a b c g p q r = (
  packed a p,
  packed b q,
  packed c r,
  ap (λ t. t % 2 ^ 16 + t / 2 ^ 16 % 2 ^ 16 * 2 ^ 16) (packed c r) ∙ halves c r,
)

-- The number whose zeros LZCR counts: the word, or its complement where the highest bit is set.
abbrev pub counted : ℕ → ℕ
counted value = if ltb value (2 ^ 31) then value else 2 ^ 32 - 1 - value

-- A count of the zeros at the top of 32 bits.
abbrev pub Leads : ℕ → ℕ → Type 0
Leads n count =
    (count ≤ 32)
    × (n * 2 ^ count < 2 ^ 32)
    × ((2 ^ 32 ≤ n * 2 ^ count * 2) ⊎ ((n ≡ 0) × (count ≡ 32)))

either_Leads :
    (b : Bool) (x y : ℕ)
    → Leads x (countl_zero 32 x)
    → Leads y (countl_zero 32 y)
    → Leads (if b then x else y) (if b then countl_zero 32 x else countl_zero 32 y)
either_Leads true x y h k = h
either_Leads false x y h k = k

-- After a write of LZCS, LZCR is the number of bits from the top that are equal to the highest one: it is at most
-- 32, and it brings the word, or its complement where the highest bit is set, exactly to the top of 32 bits, unless
-- that is 0 and the count 32.
pub leading_bits :
    (value : ℕ) (g : Gte)
    → value < 2 ^ 32
    → Leads (counted value) (data_value 31 (write_data 30 value g))
unfolding write_data data_value write_lzc
leading_bits value g h =
    either_Leads (ltb value (2 ^ 31)) value (2 ^ 32 - 1 - value) (countl_zero-lem 32 value h)
      (countl_zero-lem 32 (2 ^ 32 - 1 - value) (omega arith))
