-- ===== src/Sound/Sector.antt =====
-- The sectors of compressed sound, and the sums of the decoders.
use native.Mathlib.Nat.{mul-le-mul}
use mathlib.Core.Path.{subst}
use psx.Base.{
  ℕ, zero, suc, ◌+◌, ◌*◌, ◌^◌, ◌≤◌, ◌<◌, ◌≡◌, ◌∙◌, refl, ap, Bool, true, false, get_or, length,
  arith, leb, if_cases,
}
use psx.Base.Int.{ℤ, pos, pos_part, neg_part, sub_ℕ, ◌+ℤ◌, ◌*ℤ◌}
use psx.Sound.Adpcm.{
  pos_xa_adpcm_table, neg_xa_adpcm_table, weighted, word_nibbles, decode_28, decode_28_shared,
  Decoded, decode_pair, decode_group, decode_groups, nothing_decoded, total_blocks, sample_count,
  decode_sector,
}
use psx.Sound.Range.{
  InRange, AllInRange, Makes, Makes-append, decode_nibbles-Makes, decode_shared-Makes,
}

length-word_nibbles : (src : ℕ → ℕ) (blk i j n : ℕ) → length (word_nibbles src blk i j n) ≡ n
unfolding word_nibbles
length-word_nibbles src blk i j zero = refl
length-word_nibbles src blk i j (suc n) = ap suc (length-word_nibbles src blk i (j + 1) n)

decode_28-Makes :
    (src : ℕ → ℕ) (blk i : ℕ) (old older : ℤ) → Makes 28 ((decode_28 src blk i old older).0)
unfolding decode_28
decode_28-Makes src blk i old older =
    subst (λ n. Makes n ((decode_28 src blk i old older).0)) (length-word_nibbles src blk i 0 28)
      (decode_nibbles-Makes _ _ (word_nibbles src blk i 0 28) old older)

decode_28_shared-Makes :
    (src : ℕ → ℕ) (blk i : ℕ) (old : ℤ) → Makes 28 ((decode_28_shared src blk i old).0)
unfolding decode_28_shared
decode_28_shared-Makes src blk i old =
    subst (λ n. Makes n ((decode_28_shared src blk i old).0)) (length-word_nibbles src blk i 0 28)
      (decode_shared-Makes _ _ (word_nibbles src blk i 0 28) old)

-- The samples of a channel that a block gives.
abbrev per_block : Bool → ℕ
per_block true = 28
per_block false = 56

-- Both channels have `n` samples.
record Both (n : ℕ) (d : Decoded) : Type 0 where
  on_left : Makes n d.left
  on_right : Makes n d.right

decode_pair-Both :
    (stereo : Bool) (src : ℕ → ℕ) (blk n : ℕ) (d : Decoded)
    → Both n d
    → Both (n + per_block stereo) (decode_pair stereo src blk d)
unfolding decode_pair
decode_pair-Both true src blk n d b = record {
  on_left = Makes-append b.on_left (decode_28-Makes src blk 0 d.old_left d.older_left);
  on_right = Makes-append b.on_right (decode_28-Makes src blk 1 d.old_right d.older_right);
}
decode_pair-Both false src blk n d b =
    let one = decode_28_shared-Makes src blk 0 d.older_left in
    let two = decode_28_shared-Makes src blk 1 ((decode_28_shared src blk 0 d.older_left).1) in
    record {
      on_left = Makes-append b.on_left (Makes-append one two);
      on_right = Makes-append b.on_right (Makes-append one two);
    }

decode_groups-Both :
    (k : ℕ) (stereo : Bool) (src : ℕ → ℕ) (n : ℕ) (d : Decoded)
    → Both n d
    → Both (n + k * (4 * per_block stereo)) (decode_groups k stereo src d)
unfolding decode_groups decode_group
decode_groups-Both zero stereo src n d b = subst (λ i. Both i d) (omega arith) b
decode_groups-Both (suc k) stereo src n d b =
    let one = decode_pair-Both stereo src 0 n d b in
    let two = decode_pair-Both stereo src 1 _ _ one in
    let three = decode_pair-Both stereo src 2 _ _ two in
    let four = decode_pair-Both stereo src 3 _ _ three in
    let rest = decode_groups-Both k stereo (λ i. src (128 + i)) _ _ four in
    subst (λ i. Both i (decode_groups (suc k) stereo src d)) (add_groups n (per_block stereo) k)
      rest
  where
    add_groups : (n p k : ℕ) → n + p + p + p + p + k * (4 * p) ≡ n + suc k * (4 * p)
    add_groups n p k = omega arith

-- Whatever its bytes are, a sector with samples of four bits, of two channels or of one, gives each channel
-- as many samples as the code says that it does before it doubles them, all of them an i16.
pub decode_sector_lem :
    (stereo : Bool) (bytes : ℕ → ℕ)
    → let d = decode_sector stereo bytes in
      (length d.left ≡ sample_count stereo false)
      × (length d.right ≡ sample_count stereo false)
      × AllInRange d.left
      × AllInRange d.right
unfolding decode_sector sample_count
decode_sector_lem stereo bytes =
    let b = decode_groups-Both total_blocks stereo bytes 0 nothing_decoded start in
    (
      b.on_left.count ∙ counts stereo,
      b.on_right.count ∙ counts stereo,
      b.on_left.range,
      b.on_right.range,
    )
  where
    start : Both 0 nothing_decoded
    start = record {
      on_left = record { count = refl; range = tt };
      on_right = record { count = refl; range = tt };
    }

    counts : (stereo : Bool) → 0 + total_blocks * (4 * per_block stereo) ≡ sample_count stereo false
    counts true = refl
    counts false = refl

sub_ℕ-parts : (a b : ℕ) → (pos_part (sub_ℕ a b) ≤ a) × (neg_part (sub_ℕ a b) ≤ b)
sub_ℕ-parts a b =
    if_cases (λ z. (pos_part z ≤ a) × (neg_part z ≤ b)) (leb b a) (λ e. ground arith)
      (λ e. ground arith)

sum_parts :
    (x y : ℤ)
    → (pos_part (x +ℤ y) ≤ pos_part x + pos_part y) × (neg_part (x +ℤ y) ≤ neg_part x + neg_part y)
unfolding ◌+ℤ◌
sum_parts x y = sub_ℕ-parts _ _

product_parts :
    (x y : ℤ)
    → (pos_part (x *ℤ y) ≤ pos_part x * pos_part y + neg_part x * neg_part y)
      × (neg_part (x *ℤ y) ≤ pos_part x * neg_part y + neg_part x * pos_part y)
unfolding ◌*ℤ◌
product_parts x y = sub_ℕ-parts _ _

-- A sum of two samples with the factors of a filter, and of 32, is within an i32.
sum_fits :
    (f g old older : ℤ)
    → pos_part f ≤ 122
    → neg_part f ≤ 0
    → pos_part g ≤ 0
    → neg_part g ≤ 60
    → InRange old
    → InRange older
    → let s = old *ℤ f +ℤ older *ℤ g +ℤ pos 32 in (pos_part s < 2 ^ 31) × (neg_part s < 2 ^ 31)
sum_fits f g old older a b c d h k =
    let x = product_parts old f in
    let y = product_parts older g in
    let s = sum_parts (old *ℤ f) (older *ℤ g) in
    let t = sum_parts (old *ℤ f +ℤ older *ℤ g) (pos 32) in
    (
      omega (
        arith,
        x.0,
        y.0,
        s.0,
        t.0,
        mul-le-mul h.top a,
        mul-le-mul h.bottom b,
        mul-le-mul k.top c,
        mul-le-mul k.bottom d,
      ),
      omega (
        arith,
        x.1,
        y.1,
        s.1,
        t.1,
        mul-le-mul h.top b,
        mul-le-mul h.bottom a,
        mul-le-mul k.top d,
        mul-le-mul k.bottom c,
      ),
    )

factors_fit :
    (filter : ℕ)
    → let f = get_or pos_xa_adpcm_table filter (pos 0) in
      let g = get_or neg_xa_adpcm_table filter (pos 0) in
      (pos_part f ≤ 122) × (neg_part f ≤ 0) × (pos_part g ≤ 0) × (neg_part g ≤ 60)
factors_fit zero = omega arith
factors_fit (suc zero) = omega arith
factors_fit (suc (suc zero)) = omega arith
factors_fit (suc (suc (suc zero))) = omega arith
factors_fit (suc (suc (suc (suc zero)))) = omega arith
factors_fit (suc (suc (suc (suc (suc filter))))) = omega arith

-- The two samples before are an i16 each. Then the weighted sum that is divided by 64 is within an i32, for any
-- filter.
pub weighted_fits :
    (filter : ℕ) (old older : ℤ)
    → InRange old
    → InRange older
    → (pos_part (weighted filter old older) < 2 ^ 31)
      × (neg_part (weighted filter old older) < 2 ^ 31)
unfolding weighted
weighted_fits filter old older h k =
    let (a, b, c, d) = factors_fit filter in sum_fits _ _ old older a b c d h k
