-- ===== src/Sound/Adpcm.antt =====
-- Compressed samples: psxemu/source/psxemu/ADPCM.cpp, but for the interpolation of `InterpolateSamples`.
-- A sample is an integer, without the bounds of an i16 or an i32.
use psx.Base.{
  ℕ, zero, suc, ◌+◌, ◌*◌, ◌/◌, ◌%◌, ◌^◌, min, Bool, true, false, List, [], ◌∷◌, ◌++◌, ltb,
  if◌then◌else◌, get_or,
}
use psx.Base.Int.{ℤ, pos, negsuc, sub_ℕ, ◌+ℤ◌, ◌*ℤ◌, ltb_ℤ, quot, shift_right}

abbrev pub pos_xa_adpcm_table : List ℤ
pos_xa_adpcm_table = pos 0 ∷ pos 60 ∷ pos 115 ∷ pos 98 ∷ pos 122 ∷ []

abbrev pub neg_xa_adpcm_table : List ℤ
neg_xa_adpcm_table = pos 0 ∷ pos 0 ∷ negsuc 51 ∷ negsuc 54 ∷ negsuc 59 ∷ []

unfoldable pub clamp : ℤ → ℤ
clamp s =
    if ltb_ℤ s (negsuc 0x7fff)
    then negsuc 0x7fff
    else if ltb_ℤ (pos 0x7fff) s
    then pos 0x7fff
    else s

-- `(i32)(i16)(nibble << 12)`.
unfoldable pub extend_nibble : ℕ → ℤ
extend_nibble n = if ltb n 8 then pos (n * 2 ^ 12) else sub_ℕ (n * 2 ^ 12) (2 ^ 16)

-- A shift by more than 12 stands for one by 9.
unfoldable pub effective_shift : ℕ → ℕ
effective_shift shift = if ltb 12 shift then 9 else shift

-- The sum that is divided by 64.
unfoldable pub weighted : ℕ → ℤ → ℤ → ℤ
weighted filter old older =
    old *ℤ get_or pos_xa_adpcm_table filter (pos 0)
    +ℤ older *ℤ get_or neg_xa_adpcm_table filter (pos 0)
    +ℤ pos 32

unfoldable pub decode_nibble : ℕ → ℕ → ℕ → ℤ → ℤ → ℤ
decode_nibble shift filter nibble old older =
    clamp (shift_right (extend_nibble nibble) shift +ℤ quot (weighted filter old older) (pos 64))

-- The samples, and the two before the next.
unfoldable pub decode_nibbles : ℕ → ℕ → List ℕ → ℤ → ℤ → List ℤ × ℤ × ℤ
decode_nibbles shift filter [] old older = ([], old, older)
decode_nibbles shift filter (n ∷ ns) old older =
    let s = decode_nibble shift filter n old older in
    let (samples, last, before) = decode_nibbles shift filter ns s old in
    (s ∷ samples, last, before)

-- `SPU_ADPCM_Block`.
pub record Block : Type 0 where
  pub shift : ℕ
  pub filter : ℕ
  pub compressed_samples : List ℕ

-- The low half of each byte comes first.
unfoldable pub block_nibbles : List ℕ → List ℕ
block_nibbles [] = []
block_nibbles (b ∷ bs) = b % 16 ∷ b / 16 % 16 ∷ block_nibbles bs

-- `DecodeADPCMBlock`.
unfoldable pub decode_adpcm_block : Block → ℤ → ℤ → List ℤ × ℤ × ℤ
decode_adpcm_block b old older =
    decode_nibbles (effective_shift b.shift) (min 4 b.filter) (block_nibbles b.compressed_samples)
      old older

-- The nibbles of `n` words from `j` on in a group of a sector.
unfoldable pub word_nibbles : (ℕ → ℕ) → ℕ → ℕ → ℕ → ℕ → List ℕ
word_nibbles src blk nibble_index j zero = []
word_nibbles src blk nibble_index j (suc n) =
    src (16 + blk + j * 4) / 2 ^ (4 * nibble_index) % 16
    ∷ word_nibbles src blk nibble_index (j + 1) n

abbrev pub header_byte : (ℕ → ℕ) → ℕ → ℕ → ℕ
header_byte src blk nibble_index = src (4 + blk * 2 + nibble_index)

-- `decode_28`, where `old` and `older` are two variables.
unfoldable pub decode_28 : (ℕ → ℕ) → ℕ → ℕ → ℤ → ℤ → List ℤ × ℤ × ℤ
decode_28 src blk nibble_index old older =
    let header = header_byte src blk nibble_index in
    decode_nibbles (effective_shift (header % 16)) (min 3 (header / 16 % 4))
      (word_nibbles src blk nibble_index 0 28) old older

-- The same where `old` and `older` are one variable.
unfoldable pub decode_shared : ℕ → ℕ → List ℕ → ℤ → List ℤ × ℤ
decode_shared shift filter [] old = ([], old)
decode_shared shift filter (n ∷ ns) old =
    let s = decode_nibble shift filter n old old in
    let (samples, last) = decode_shared shift filter ns s in (s ∷ samples, last)

unfoldable pub decode_28_shared : (ℕ → ℕ) → ℕ → ℕ → ℤ → List ℤ × ℤ
decode_28_shared src blk nibble_index old =
    let header = header_byte src blk nibble_index in
    decode_shared (effective_shift (header % 16)) (min 3 (header / 16 % 4))
      (word_nibbles src blk nibble_index 0 28) old

-- The variables of `DecodeXAADPCMSector`, with what it has written through `left` and `right`.
pub record Decoded : Type 0 where
  pub left : List ℤ
  pub right : List ℤ
  pub old_left : ℤ
  pub older_left : ℤ
  pub old_right : ℤ
  pub older_right : ℤ

-- One turn of the loop over the blocks of a group: two channels, or one in both.
unfoldable pub decode_pair : Bool → (ℕ → ℕ) → ℕ → Decoded → Decoded
decode_pair true src blk d =
    let (l, old_left, older_left) = decode_28 src blk 0 d.old_left d.older_left in
    let (r, old_right, older_right) = decode_28 src blk 1 d.old_right d.older_right in
    record {
      left = d.left ++ l;
      right = d.right ++ r;
      old_left = old_left;
      older_left = older_left;
      old_right = old_right;
      older_right = older_right;
    }
decode_pair false src blk d =
    let (a, older) = decode_28_shared src blk 0 d.older_left in
    let (b, last) = decode_28_shared src blk 1 older in
    record d { left = d.left ++ (a ++ b); right = d.right ++ (a ++ b); older_left = last }

unfoldable pub decode_group : Bool → (ℕ → ℕ) → Decoded → Decoded
decode_group stereo src d =
    decode_pair stereo src 3
      (decode_pair stereo src 2 (decode_pair stereo src 1 (decode_pair stereo src 0 d)))

-- `n` groups of 128 bytes.
unfoldable pub decode_groups : ℕ → Bool → (ℕ → ℕ) → Decoded → Decoded
decode_groups zero stereo src d = d
decode_groups (suc n) stereo src d =
    decode_groups n stereo (λ i. src (128 + i)) (decode_group stereo src d)

abbrev pub nothing_decoded : Decoded
nothing_decoded = record {
  left = [];
  right = [];
  old_left = pos 0;
  older_left = pos 0;
  old_right = pos 0;
  older_right = pos 0;
}

abbrev pub total_blocks : ℕ
total_blocks = 18

-- The number of samples of a channel, before they are doubled.
unfoldable pub sample_count : Bool → Bool → ℕ
sample_count stereo bits8 =
    let all = 8 * 28 * total_blocks in
    let half = if bits8 then all / 2 else all in if stereo then half / 2 else half

-- The loop over the groups of the sector `data`.
unfoldable pub decode_sector : Bool → (ℕ → ℕ) → Decoded
decode_sector stereo bytes = decode_groups total_blocks stereo bytes nothing_decoded
