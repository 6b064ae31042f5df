-- ===== src/Gte/Perspective.antt =====
-- The commands on positions: psxemu/source/psxemu/GTEOpcodes.cpp, with the division of GTE.cpp.
use psx.Base.{ℕ, ◌+◌, ◌-◌, ◌*◌, ◌/◌, ◌^◌, min, Bool, true, false, ltb, if◌then◌else◌}
use psx.Base.Int.{ℤ, pos, negsuc, ◌+ℤ◌, ◌-ℤ◌, ◌*ℤ◌, bits_of, to_signed, shift_right, clamp_ℤ}
use psx.Gte.State.{
  Gte, low, low_signed, high_signed, word_signed, set_low, vector, matrix_at, word_vec, ir, mac,
  sxy, sz, rotation_matrix, translation_vec, screen_offset, proj_plane_dist, dqa, dqb, avg_z_scale,
  set_flag,
}
use psx.Gte.Saturate.{
  flag_if, outside, set_mac, set_mac0, least_ir, put_ir, saturate_sz3, saturate_screen,
  saturate_ir0, saturate_otz, push_screen_fifo, push_z_fifo, update_irgb,
}
use psx.Gte.Registers.{countl_zero}
use psx.Gte.Multiply.{mat_row}

-- `unr_table`.
abbrev pub unr_table : ℕ → ℕ
unr_table i = (0x40000 / (i + 0x100) + 1) / 2 - 0x101

-- The approximation of 2 ^ 32 / denom, for a denominator with its highest bit set.
unfoldable pub reciprocal : ℕ → ℕ
reciprocal denom =
    let divisor = unr_table ((denom - 0x7fc0) / 2 ^ 7) + 0x101 in
    let first = (0x0200_0080 - denom * divisor) / 2 ^ 8 in (0x80 + first * divisor) / 2 ^ 8

-- The quotient, where it is small enough.
unfoldable pub unr_divide : ℕ → ℕ → ℕ
unr_divide h sz =
    let zero_count = countl_zero 16 sz in
    min 0x1_ffff ((h * 2 ^ zero_count * reciprocal (sz * 2 ^ zero_count) + 0x8000) / 2 ^ 16)

-- `DivAndSaturate`.
unfoldable pub div_and_saturate : ℕ → ℕ → Gte → ℕ × Gte
div_and_saturate h sz g = if ltb h (sz * 2) then (unr_divide h sz, g) else (0x1_ffff, set_flag 17 g)

-- The third row of `RTPS`: `mac3`, the flag, and `ir3` without one.
unfoldable pub put_depth : ℤ → Bool → ℕ → Gte → Gte
put_depth value lm sf g =
    let fract = shift_right value 12 in
    let flagged =
      flag_if (outside (negsuc 0x7fff) (pos 0x7fff) fract) 22
        (set_mac 3 (shift_right value (12 * sf)) g) in
    set_low (ir 3) (bits_of 16 (clamp_ℤ (least_ir lm) (pos 0x7fff) (word_signed (mac 3) flagged)))
      flagged

-- The point of the screen for the quotient `q` and the two values of `SaturateIR`.
unfoldable pub put_point : ℤ → ℤ → ℤ → Bool → ℕ → Gte → Gte
put_point q x y depth z g =
    let sx = q *ℤ x +ℤ word_signed screen_offset g in
    let (sx2, g1) = saturate_screen 14 (to_signed 32 (shift_right sx 16)) (set_mac0 sx g) in
    let sy = q *ℤ y +ℤ word_signed (screen_offset + 1) g1 in
    let (sy2, g2) = saturate_screen 13 (to_signed 32 (shift_right sy 16)) (set_mac0 sy g1) in
    let cue = q *ℤ low_signed dqa g2 +ℤ word_signed dqb g2 in
    let g3 = if depth then saturate_ir0 (shift_right cue 12) (set_mac0 cue g2) else g2 in
    push_z_fifo z (push_screen_fifo sx2 sy2 g3)

-- `RTPS`.
unfoldable pub rtps : ℕ → Bool → Bool → ℕ → Gte → Gte
rtps n depth lm sf g =
    let t = word_vec translation_vec g in
    let m = matrix_at rotation_matrix g in
    let v = vector n g in
    let (a, g1) = mat_row 1 m.row1 v t.x g in
    let h1 = put_ir 1 a lm sf g1 in
    let (b, g2) = mat_row 2 m.row2 v t.y h1 in
    let h2 = put_ir 2 b lm sf g2 in
    let (c, g3) = mat_row 3 m.row3 v t.z h2 in
    let h3 = put_depth c lm sf g3 in
    let (z, h4) = saturate_sz3 (to_signed 32 (shift_right c 12)) h3 in
    let (q, h5) = div_and_saturate (low proj_plane_dist h4) z h4 in
    update_irgb (put_point (pos q) (low_signed (ir 1) h1) (low_signed (ir 2) h2) depth z h5)

-- `RTPT`.
unfoldable pub rtpt : Bool → ℕ → Gte → Gte
rtpt lm sf g = rtps 2 true lm sf (rtps 1 false lm sf (rtps 0 false lm sf g))

-- The sum of `NCLIP`.
unfoldable pub clip_sum : ℤ → ℤ → ℤ → ℤ → ℤ → ℤ → ℤ
clip_sum x0 y0 x1 y1 x2 y2 = x0 *ℤ y1 +ℤ x1 *ℤ y2 +ℤ x2 *ℤ y0 -ℤ x0 *ℤ y2 -ℤ x1 *ℤ y0 -ℤ x2 *ℤ y1

-- `NCLIP`.
unfoldable pub nclip : Gte → Gte
nclip g =
    set_mac0
      (clip_sum (low_signed (sxy 0) g) (high_signed (sxy 0) g) (low_signed (sxy 1) g)
        (high_signed (sxy 1) g) (low_signed (sxy 2) g) (high_signed (sxy 2) g))
      g

-- `AVSZ3` and `AVSZ4`.
unfoldable pub average_z : ℤ → Gte → Gte
average_z value g = saturate_otz (shift_right value 12) (set_mac0 value g)

unfoldable pub avsz3 : Gte → Gte
avsz3 g =
    average_z (low_signed (avg_z_scale 0) g *ℤ pos (low (sz 1) g + low (sz 2) g + low (sz 3) g)) g

unfoldable pub avsz4 : Gte → Gte
avsz4 g =
    average_z
      (low_signed (avg_z_scale 1) g
        *ℤ pos (low (sz 0) g + low (sz 1) g + low (sz 2) g + low (sz 3) g))
      g
