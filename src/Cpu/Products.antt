-- ===== src/Cpu/Products.antt =====
-- HI and LO after DIVU and MULTU: laws of `MulDiv` of
-- psxemu/include/psxemu/InstructionHandlers.hpp.
use native.Mathlib.Nat.{div-add-mod', mod-lt}
use psx.Base.{ℕ, ◌+◌, ◌*◌, ◌^◌, ◌<◌, ◌≡◌, ◌≢◌, ◌⊎◌, arith}
use psx.Base.Words.{IsWord, all_ones}
use psx.Cpu.MulDiv.{div_unsigned, mul_unsigned}

-- DIVU by a number other than 0 leaves the quotient in LO and the remainder in HI; by 0 it leaves all
-- ones in LO and the dividend in HI.
pub div_unsigned_lem :
    (rs rt : ℕ)
    → let (hi, lo) = div_unsigned rs rt in
      (rt ≢ 0) × (lo * rt + hi ≡ rs) × (hi < rt) ⊎ (rt ≡ 0) × (lo ≡ all_ones) × (hi ≡ rs)
unfolding div_unsigned
div_unsigned_lem rs rt = ground (arith, div-add-mod' rs rt, mod-lt rs {m = rt})

square_bound : (a b : ℕ) → IsWord a → IsWord b → a * b < 2 ^ 64
square_bound a b ha hb = grind arith

-- MULTU leaves the whole product of two words, its high half in HI and its low half in LO.
pub mul_unsigned_lem :
    (rs rt : ℕ)
    → IsWord rs
    → IsWord rt
    → let (hi, lo) = mul_unsigned rs rt in hi * 2 ^ 32 + lo ≡ rs * rt
unfolding mul_unsigned
mul_unsigned_lem rs rt hs ht = omega (arith, square_bound rs rt hs ht)
