-- ===== src/Gte/Divide.antt =====
-- The division of the geometry engine is close to the exact quotient.
use psx.Base.{
  ◌⊎◌, ℕ, zero, suc, ◌+◌, ◌-◌, ◌*◌, ◌/◌, ◌^◌, min, ◌≤◌, ◌<◌, ◌≡◌, refl, ap, Bool, true, false, ◌&&◌,
  leb, sym, inl, inr, arith, leb→le, if_cases,
}
use mathlib.Core.Path.{subst}
use native.Mathlib.Decide.{ℕ_discrete}
use native.Mathlib.Nat.{
  le_refl, one-le-pow, pow-suc, mul-le-mul, le_of_mul-le-mul_right, div-mul-le_self, lt-div-mul-add,
}
use psx.Gte.Registers.{countl_zero}
use psx.Gte.Perspective.{reciprocal, unr_table, unr_divide}

and_left : (b c : Bool) → b && c ≡ true → b ≡ true
and_left true c h = refl
and_left false c h = h

and_right : (b c : Bool) → b && c ≡ true → c ≡ true
and_right true c h = h
and_right false true h = refl
and_right false false h = h

-- What a denominator has to pass: its place in the table, the difference that a u32 has room for, and the two
-- bounds of the reciprocal.
abbrev in_table : ℕ → Bool
in_table d = leb ((d - 0x7fc0) / 2 ^ 7) 256

abbrev no_borrow : ℕ → Bool
no_borrow d = leb (d * (unr_table ((d - 0x7fc0) / 2 ^ 7) + 0x101)) 0x0200_0080

abbrev not_below : ℕ → Bool
not_below d = leb (2 ^ 32) ((reciprocal d + 3) * d)

abbrev not_above : ℕ → Bool
not_above d = leb (reciprocal d * d) (2 ^ 32 + 2 * d)

abbrev passes : ℕ → Bool
passes d = in_table d && (no_borrow d && (not_below d && not_above d))

abbrev all_from : ℕ → ℕ → (ℕ → Bool) → Bool
all_from zero start p = true
all_from (suc n) start p = p (start + n) && all_from n start p

all_pass : all_from 0x8000 0x8000 passes ≡ true
unfolding reciprocal
all_pass = refl

all_from-lem :
    (n start k : ℕ) (p : ℕ → Bool) → all_from n start p ≡ true → k < n → p (start + k) ≡ true
all_from-lem zero start k p h lt = absurd (omega arith)
all_from-lem (suc n) start k p h lt = elim (ℕ_discrete k n) [
  | yes e ↦ subst (λ i. p (start + i) ≡ true) (sym e) (and_left _ _ h)
  | no ne ↦ all_from-lem n start k p (and_right _ _ h) (omega arith)
]

passes-lem : (d : ℕ) → 0x8000 ≤ d → d < 0x1_0000 → passes d ≡ true
passes-lem d h k =
    subst (λ i. passes i ≡ true) (back d h)
      (all_from-lem 0x8000 0x8000 (d - 0x8000) passes all_pass (omega arith))
  where
    back : (d : ℕ) → 0x8000 ≤ d → 0x8000 + (d - 0x8000) ≡ d
    back d h = omega arith

-- The denominator of a division has its highest bit set. Then the table has a place for it, the difference of
-- the first step does not go below 0, and the reciprocal is at most 3 below and 2 above 2 ^ 32 / d.
pub reciprocal_close :
    (d : ℕ)
    → 2 ^ 15 ≤ d
    → d < 2 ^ 16
    → ((d - 0x7fc0) / 2 ^ 7 ≤ 256)
      × (d * (unr_table ((d - 0x7fc0) / 2 ^ 7) + 0x101) ≤ 0x0200_0080)
      × (2 ^ 32 ≤ (reciprocal d + 3) * d)
      × (reciprocal d * d ≤ 2 ^ 32 + 2 * d)
reciprocal_close d h k =
    let all = passes-lem d h k in
    let rest = and_right (in_table d) (no_borrow d && (not_below d && not_above d)) all in
    let last = and_right (no_borrow d) (not_below d && not_above d) rest in
    (
      leb→le _ _ (and_left (in_table d) _ all),
      leb→le _ _ (and_left (no_borrow d) _ rest),
      leb→le _ _ (and_left (not_below d) _ last),
      leb→le _ _ (and_right (not_below d) (not_above d) last),
    )

-- The leading zeros bring a number to the top of `w` bits.
pub countl_zero-lem :
    (w n : ℕ)
    → n < 2 ^ w
    → (countl_zero w n ≤ w)
      × (n * 2 ^ countl_zero w n < 2 ^ w)
      × ((2 ^ w ≤ n * 2 ^ countl_zero w n * 2) ⊎ ((n ≡ 0) × (countl_zero w n ≡ w)))
unfolding countl_zero
countl_zero-lem zero n h = (omega arith, omega (arith, h), inr (omega arith, refl))
countl_zero-lem (suc w) n h =
    if_cases (λ c. AtTop (suc w) c) (leb (2 ^ w) n)
      (λ e. (omega arith, omega (arith, h), inl (omega (arith, leb→le (2 ^ w) n e, pow-suc 2 w))))
      (λ e.
        let (within, below, above) = countl_zero-lem w n (not_leb (2 ^ w) n e) in
        (
          omega (arith, within),
          omega (arith, below, pow-suc 2 w, doubled (countl_zero w n)),
          elim above [
            | inl top ↦ inl (omega (arith, top, pow-suc 2 w, doubled (countl_zero w n)))
            | inr (none, all) ↦ inr (none, ap suc all)
          ],
        ))
  where
    AtTop : ℕ → ℕ → Type 0
    AtTop w c = (c ≤ w) × (n * 2 ^ c < 2 ^ w) × ((2 ^ w ≤ n * 2 ^ c * 2) ⊎ ((n ≡ 0) × (c ≡ w)))

    not_leb : (a b : ℕ) → leb a b ≡ false → b < a
    not_leb a b e = ground arith

    doubled : (c : ℕ) → n * 2 ^ suc c ≡ n * 2 ^ c * 2
    doubled c = simp (pow-suc) (omega arith)

top_bit :
    (n : ℕ)
    → 0 < n
    → n < 2 ^ 16
    → (n * 2 ^ countl_zero 16 n < 2 ^ 16) × (2 ^ 16 ≤ n * 2 ^ countl_zero 16 n * 2)
top_bit n p h =
    let (within, below, above) = countl_zero-lem 16 n h in
    (below, elim above [ inl top ↦ top | inr (none, all) ↦ absurd (omega (arith, p, none)) ])

above_lem :
    (raw numer r d : ℕ)
    → raw * 2 ^ 16 ≤ numer * r + 0x8000
    → r * d ≤ 2 ^ 32 + 2 * d
    → numer ≤ 2 ^ 17
    → raw * d ≤ numer * 2 ^ 16 + 5 * d
above_lem raw numer r d h k l =
    omega (arith, mul-le-mul h (refl_le d), mul-le-mul (refl_le numer) k, mul-le-mul l (refl_le d))
  where
    refl_le : (n : ℕ) → n ≤ n
    refl_le n = omega arith

below_lem :
    (raw numer r d : ℕ)
    → numer * r + 0x8000 < (raw + 1) * 2 ^ 16
    → 2 ^ 32 ≤ (r + 3) * d
    → numer ≤ 2 ^ 17
    → numer * 2 ^ 16 ≤ (raw + 7) * d
below_lem raw numer r d h k l = omega (
  arith,
  mul-le-mul (weaken h) (refl_le d),
  mul-le-mul (refl_le numer) k,
  mul-le-mul l (refl_le d),
)
  where
    refl_le : (n : ℕ) → n ≤ n
    refl_le n = omega arith

    weaken : numer * r + 0x8000 < (raw + 1) * 2 ^ 16 → numer * r + 0x8000 ≤ (raw + 1) * 2 ^ 16
    weaken h = omega arith

abbrev IsClose : ℕ → ℕ → ℕ → Type 0
IsClose q h sz = (q * sz ≤ h * 2 ^ 16 + 5 * sz) × (h * 2 ^ 16 ≤ (q + 7) * sz)

least_cases : (m n : ℕ) → (min m n ≡ n) ⊎ ((min m n ≡ m) × (m ≤ n))
least_cases m n = ground arith

least-IsClose : (raw h sz : ℕ) → h < sz * 2 → IsClose raw h sz → IsClose (min 0x1_ffff raw) h sz
least-IsClose raw h sz k (above, below) = elim (least_cases 0x1_ffff raw) [
  | inl e ↦ subst (λ q. IsClose q h sz) (sym e) (above, below)
  | inr (e, le) ↦
      subst (λ q. IsClose q h sz) (sym e)
        (omega (arith, above, mul-le-mul le (le_refl sz)), omega (arith, k))
]

scaled-IsClose :
    (raw h sz c : ℕ) → 0 < 2 ^ c → IsClose raw (h * 2 ^ c) (sz * 2 ^ c) → IsClose raw h sz
scaled-IsClose raw h sz c p (above, below) = (
  le_of_mul-le-mul_right (omega (arith, above)) p,
  le_of_mul-le-mul_right (omega (arith, below)) p,
)

quotient-IsClose :
    (h d : ℕ)
    → 2 ^ 15 ≤ d
    → d < 2 ^ 16
    → h ≤ 2 ^ 17
    → IsClose ((h * reciprocal d + 0x8000) / 2 ^ 16) h d
quotient-IsClose h d k l m =
    let (place, room, low, high) = reciprocal_close d k l in
    let n = h * reciprocal d + 0x8000 in
    (
      above_lem (n / 2 ^ 16) h (reciprocal d) d (div-mul-le_self n (2 ^ 16)) high m,
      below_lem (n / 2 ^ 16) h (reciprocal d) d
          (omega (arith, lt-div-mul-add {a = n} {b = 2 ^ 16} (omega arith))) low m,
    )

-- Where 0 < sz < 2 ^ 16 and h < 2 * sz, which is where the code divides, its quotient of h * 2 ^ 16 by sz is at
-- most 5 above and 7 below the exact one.
pub unr_divide_close :
    (h sz : ℕ)
    → 0 < sz
    → sz < 2 ^ 16
    → h < sz * 2
    → (unr_divide h sz * sz ≤ h * 2 ^ 16 + 5 * sz) × (h * 2 ^ 16 ≤ (unr_divide h sz + 7) * sz)
unfolding unr_divide
unr_divide_close h sz p l k =
    let c = countl_zero 16 sz in
    let (least, most) = top_bit sz p l in
    least-IsClose ((h * 2 ^ c * reciprocal (sz * 2 ^ c) + 0x8000) / 2 ^ 16) h sz k (
      scaled-IsClose _ h sz c (one-le-pow c 2 (omega arith)) (
        quotient-IsClose (h * 2 ^ c) (sz * 2 ^ c) (omega (arith, most)) least
          (omega (arith, least, mul-le-mul (below_twice k) (le_refl (2 ^ c))))))
  where
    below_twice : h < sz * 2 → h ≤ sz * 2
    below_twice k = omega arith
