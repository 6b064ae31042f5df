-- ===== src/Sound/Range.antt =====
-- The samples that the decoders make.
use psx.Base.{
  ℕ, suc, ◌+◌, ◌*◌, min, ◌≤◌, ◌≡◌, refl, ap, List, [], ◌∷◌, ◌++◌, length, length-append, arith,
  if_cases,
}
use psx.Base.Int.{ℤ, pos, negsuc, pos_part, neg_part, ltb_ℤ}
use psx.Sound.Adpcm.{
  clamp, effective_shift, decode_nibble, decode_nibbles, Block, block_nibbles, decode_adpcm_block,
  decode_shared,
}

-- An i16.
pub record InRange (s : ℤ) : Type 0 where
  pub top : pos_part s ≤ 0x7fff
  pub bottom : neg_part s ≤ 0x8000

abbrev pub AllInRange : List ℤ → Type 0
AllInRange [] = Unit
AllInRange (s ∷ ss) = InRange s × AllInRange ss

AllInRange-append : (ss ts : List ℤ) → AllInRange ss → AllInRange ts → AllInRange (ss ++ ts)
AllInRange-append [] ts h k = k
AllInRange-append (s ∷ ss) ts h k = (h.0, AllInRange-append ss ts (h.1) k)

clamp-InRange : (s : ℤ) → InRange (clamp s)
unfolding clamp
clamp-InRange (pos n) =
    if_cases InRange (ltb_ℤ (pos n) (negsuc 0x7fff))
      (λ e. record { top = omega arith; bottom = omega arith })
      (λ e.
        if_cases InRange (ltb_ℤ (pos 0x7fff) (pos n))
          (λ g. record { top = omega arith; bottom = omega arith })
          (λ g. record { top = ground arith; bottom = omega arith }))
clamp-InRange (negsuc n) =
    if_cases InRange (ltb_ℤ (negsuc n) (negsuc 0x7fff))
      (λ e. record { top = omega arith; bottom = omega arith })
      (λ e.
        if_cases InRange (ltb_ℤ (pos 0x7fff) (negsuc n))
          (λ g. record { top = omega arith; bottom = omega arith })
          (λ g. record { top = omega arith; bottom = ground arith }))

decode_nibble-InRange :
    (shift filter n : ℕ) (old older : ℤ) → InRange (decode_nibble shift filter n old older)
unfolding decode_nibble
decode_nibble-InRange shift filter n old older = clamp-InRange _

-- What a decoder makes: `n` samples, all of them an i16.
pub record Makes (n : ℕ) (ss : List ℤ) : Type 0 where
  pub count : length ss ≡ n
  pub range : AllInRange ss

pub Makes-append : {m n : ℕ} {ss ts : List ℤ} → Makes m ss → Makes n ts → Makes (m + n) (ss ++ ts)
Makes-append {ss = ss} {ts = ts} a b = record {
  count = omega (arith, length-append ss ts, a.count, b.count);
  range = AllInRange-append ss ts a.range b.range;
}

pub decode_nibbles-Makes :
    (shift filter : ℕ) (ns : List ℕ) (old older : ℤ)
    → Makes (length ns) ((decode_nibbles shift filter ns old older).0)
unfolding decode_nibbles
decode_nibbles-Makes shift filter [] old older = record { count = refl; range = tt }
decode_nibbles-Makes shift filter (n ∷ ns) old older =
    let s = decode_nibble shift filter n old older in
    let rest = decode_nibbles-Makes shift filter ns s old in
    record {
      count = ap suc rest.count;
      range = (decode_nibble-InRange shift filter n old older, rest.range);
    }

pub decode_shared-Makes :
    (shift filter : ℕ) (ns : List ℕ) (old : ℤ)
    → Makes (length ns) ((decode_shared shift filter ns old).0)
unfolding decode_shared
decode_shared-Makes shift filter [] old = record { count = refl; range = tt }
decode_shared-Makes shift filter (n ∷ ns) old =
    let s = decode_nibble shift filter n old old in
    let rest = decode_shared-Makes shift filter ns s in
    record {
      count = ap suc rest.count;
      range = (decode_nibble-InRange shift filter n old old, rest.range);
    }

length-block_nibbles : (bs : List ℕ) → length (block_nibbles bs) ≡ 2 * length bs
unfolding block_nibbles
length-block_nibbles [] = refl
length-block_nibbles (b ∷ bs) = omega (arith, length-block_nibbles bs)

decode_nibbles-InRange :
    (shift filter : ℕ) (ns : List ℕ) (old older : ℤ)
    → InRange old
    → InRange older
    → let r = decode_nibbles shift filter ns old older in InRange (r.1) × InRange (r.2)
unfolding decode_nibbles
decode_nibbles-InRange shift filter [] old older h k = (h, k)
decode_nibbles-InRange shift filter (n ∷ ns) old older h k =
    decode_nibbles-InRange shift filter ns _ old (decode_nibble-InRange shift filter n old older) h

-- A block has 14 bytes, and the two samples before it are an i16 each. Then it gives 28 samples, all of
-- them an i16, and the two samples that are kept for the next block are again an i16 each.
pub decode_adpcm_block-InRange :
    (b : Block) (old older : ℤ)
    → length b.compressed_samples ≡ 14
    → InRange old
    → InRange older
    → let r = decode_adpcm_block b old older in
      (length (r.0) ≡ 28) × AllInRange (r.0) × InRange (r.1) × InRange (r.2)
unfolding decode_adpcm_block
decode_adpcm_block-InRange b old older h i k =
    let ns = block_nibbles b.compressed_samples in
    let made = decode_nibbles-Makes (effective_shift b.shift) (min 4 b.filter) ns old older in
    let last = decode_nibbles-InRange (effective_shift b.shift) (min 4 b.filter) ns old older i k in
    (
      omega (arith, made.count, length-block_nibbles b.compressed_samples, h),
      made.range,
      last.0,
      last.1,
    )
