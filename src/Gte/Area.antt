-- ===== src/Gte/Area.antt =====
-- The sum of `NCLIP` is twice the signed area of the triangle on the screen.
use mathlib.Core.Path.{subst}
use psx.Base.Words.{set_bit}
use psx.Base.{ap, ◌≡◌, ◌⊎◌, inl, inr, arith, ◌^◌, ◌-◌, true, if_cases}
use psx.Base.Int.{ℤ, pos, negsuc, ◌+ℤ◌, ◌-ℤ◌, ◌*ℤ◌, leb_ℤ, ltb_ℤ, bits_of}
use psx.Base.Ring.{int_ext, +ℤ_parts, -ℤ_parts, -ℤ-*ℤ, *ℤ--ℤ, signed-bits_of32}
use psx.Gte.State.{set_word, Gte, flags, mac0, sxy, low_signed, high_signed, word_signed}
use psx.Gte.Saturate.{set_mac0}
use psx.Gte.Perspective.{clip_sum, nclip}

-- The cross product of two sides of the triangle.
abbrev cross : ℤ → ℤ → ℤ → ℤ → ℤ → ℤ → ℤ
cross x0 y0 x1 y1 x2 y2 = (x1 -ℤ x0) *ℤ (y2 -ℤ y0) -ℤ (x2 -ℤ x0) *ℤ (y1 -ℤ y0)

clip_sum-cross : (x0 y0 x1 y1 x2 y2 : ℤ) → clip_sum x0 y0 x1 y1 x2 y2 ≡ cross x0 y0 x1 y1 x2 y2
unfolding clip_sum
clip_sum-cross x0 y0 x1 y1 x2 y2 =
    rw
      (
        -ℤ-*ℤ x1 x0 (y2 -ℤ y0),
        -ℤ-*ℤ x2 x0 (y1 -ℤ y0),
        *ℤ--ℤ y2 y0 x1,
        *ℤ--ℤ y2 y0 x0,
        *ℤ--ℤ y1 y0 x2,
        *ℤ--ℤ y1 y0 x0,
      )
      (gathered (x0 *ℤ y1) (x1 *ℤ y2) (x2 *ℤ y0) (x0 *ℤ y2) (x1 *ℤ y0) (x2 *ℤ y1) (x0 *ℤ y0))
  where
    gathered :
        (a b c d e f o : ℤ)
        → a +ℤ b +ℤ c -ℤ d -ℤ e -ℤ f ≡ (b -ℤ e -ℤ (d -ℤ o)) -ℤ (f -ℤ c -ℤ (a -ℤ o))
    gathered a b c d e f o = int_ext _ _ (omega (arith, +ℤ_parts, -ℤ_parts))

-- The cross product of the three points of the screen queue.
abbrev pub area : Gte → ℤ
area g =
    cross (low_signed (sxy 0) g) (high_signed (sxy 0) g) (low_signed (sxy 1) g)
      (high_signed (sxy 1) g) (low_signed (sxy 2) g) (high_signed (sxy 2) g)

abbrev sum : Gte → ℤ
sum g =
    clip_sum (low_signed (sxy 0) g) (high_signed (sxy 0) g) (low_signed (sxy 1) g)
      (high_signed (sxy 1) g) (low_signed (sxy 2) g) (high_signed (sxy 2) g)

-- What `SetMac0` leaves of a value.
abbrev pub Exact : ℤ → Gte → Type 0
Exact value g = (g.regs flags ≡ 0) × (word_signed mac0 g ≡ value)

abbrev pub TooLarge : ℤ → Gte → Type 0
TooLarge value g = (g.regs flags ≡ 2 ^ 16) × (leb_ℤ (pos (2 ^ 31)) value ≡ true)

abbrev pub TooSmall : ℤ → Gte → Type 0
TooSmall value g = (g.regs flags ≡ 2 ^ 15) × (ltb_ℤ value (negsuc (2 ^ 31 - 1)) ≡ true)

set_mac0_cases :
    (value : ℤ) (g : Gte)
    → g.regs flags ≡ 0
    → Exact value (set_mac0 value g)
      ⊎ TooLarge value (set_mac0 value g)
      ⊎ TooSmall value (set_mac0 value g)
unfolding set_mac0
set_mac0_cases value g clear =
    if_cases Left (leb_ℤ (pos (2 ^ 31)) value) (λ large. inr (inl (ap (set_bit 16 1) clear, large)))
      (λ fits.
        if_cases Left (ltb_ℤ value (negsuc (2 ^ 31 - 1)))
          (λ small. inr (inr (ap (set_bit 15 1) clear, small)))
          (λ h. inl (clear, signed-bits_of32 value fits h)))
  where
    Left : Gte → Type 0
    Left f =
        let after = set_word mac0 (bits_of 32 value) f in
        Exact value after ⊎ TooLarge value after ⊎ TooSmall value after

-- Where no flag is set before, NCLIP either leaves the cross product of two sides of the triangle on the screen in
-- MAC0 and sets no flag, or the product does not fit in an i32 and just the flag of its sign is set.
pub nclip-area :
    (g : Gte)
    → g.regs flags ≡ 0
    → Exact (area g) (nclip g) ⊎ TooLarge (area g) (nclip g) ⊎ TooSmall (area g) (nclip g)
unfolding nclip
nclip-area g clear =
    subst
      (λ value.
        Exact value (set_mac0 (sum g) g)
        ⊎ TooLarge value (set_mac0 (sum g) g)
        ⊎ TooSmall value (set_mac0 (sum g) g))
      (clip_sum-cross (low_signed (sxy 0) g) (high_signed (sxy 0) g) (low_signed (sxy 1) g)
        (high_signed (sxy 1) g) (low_signed (sxy 2) g) (high_signed (sxy 2) g))
      (set_mac0_cases (sum g) g clear)
