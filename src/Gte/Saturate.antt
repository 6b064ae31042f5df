-- ===== src/Gte/Saturate.antt =====
-- The accumulators and the saturated registers of the geometry engine: the templates of
-- psxemu/include/psxemu/GTE.hpp, and the queues of psxemu/source/psxemu/GTE.cpp.
use psx.Base.{ℕ, ◌+◌, ◌-◌, ◌*◌, ◌^◌, Bool, ◌||◌, if◌then◌else◌}
use psx.Base.Int.{
  ℤ, pos, negsuc, ltb_ℤ, leb_ℤ, clamp_ℤ, quot, shift_right, bits_of, to_signed, pos_part,
}
use psx.Gte.State.{
  Gte, set_word, low_signed, set_low, word_signed, byte_at, color_value, avg_z, ir0, ir, sxy, sz,
  rgb, mac0, mac, irgb, set_flag,
}

-- The flag `k` where `b`.
abbrev pub flag_if : Bool → ℕ → Gte → Gte
flag_if b k g = if b then set_flag k g else g

-- The flags of `SetMac` and `CheckMacOverflow`: the value does not fit in 44 bits.
unfoldable pub mac_flags : ℕ → ℤ → Gte → Gte
mac_flags n value g =
    if leb_ℤ (pos (2 ^ 43)) value
    then set_flag (31 - n) g
    else flag_if (ltb_ℤ value (negsuc (2 ^ 43 - 1))) (28 - n) g

-- `SetMac`, which answers the value itself.
unfoldable pub set_mac : ℕ → ℤ → Gte → Gte
set_mac n value g = set_word (mac n) (bits_of 32 value) (mac_flags n value g)

-- `CheckMacOverflow`: the 44 bits of the value.
unfoldable pub check_mac : ℕ → ℤ → Gte → ℤ × Gte
check_mac n value g = (to_signed 44 value, mac_flags n value g)

unfoldable pub set_mac0 : ℤ → Gte → Gte
set_mac0 value g =
    let flagged =
      if leb_ℤ (pos (2 ^ 31)) value
      then set_flag 16 g
      else flag_if (ltb_ℤ value (negsuc (2 ^ 31 - 1))) 15 g in
    set_word mac0 (bits_of 32 value) flagged

-- Whether a value is outside of two bounds.
abbrev pub outside : ℤ → ℤ → ℤ → Bool
outside least most value = ltb_ℤ value least || ltb_ℤ most value

-- The five bits of a color that `ir` gives.
unfoldable pub color_of : ℤ → ℕ
color_of value = pos_part (clamp_ℤ (pos 0) (pos 0x1f) (quot value (pos 0x80)))

-- `u16` of `RGB_555`.
abbrev pub pack_color : ℕ → ℕ → ℕ → ℕ
pack_color r g b = r + g * 2 ^ 5 + b * 2 ^ 10

-- `UpdateIRGB`: the two words of `irgb`.
unfoldable pub update_irgb : Gte → Gte
update_irgb g =
    let color =
      pack_color (color_of (low_signed (ir 1) g)) (color_of (low_signed (ir 2) g))
        (color_of (low_signed (ir 3) g)) in
    set_word (irgb + 1) color (set_word irgb color g)

abbrev pub least_ir : Bool → ℤ
least_ir lm = if lm then pos 0 else negsuc 0x7fff

-- `SaturateIR` of an i32.
unfoldable pub saturate_ir : ℕ → ℤ → Bool → Gte → Gte
saturate_ir n value lm g =
    let flagged = flag_if (outside (least_ir lm) (pos 0x7fff) value) (25 - n) g in
    let final = clamp_ℤ (least_ir lm) (pos 0x7fff) value in
    update_irgb (set_low (ir n) (bits_of 16 final) flagged)

-- `SaturateIR<n>(i32(SetMac<n>(value >> (12 * sf))), lm)`.
unfoldable pub put_ir : ℕ → ℤ → Bool → ℕ → Gte → Gte
put_ir n value lm sf g =
    let shifted = shift_right value (12 * sf) in
    saturate_ir n (to_signed 32 shifted) lm (set_mac n shifted g)

-- `SaturateSZ3`, of an i32.
unfoldable pub saturate_sz3 : ℤ → Gte → ℕ × Gte
saturate_sz3 value g = (
  bits_of 16 (clamp_ℤ (pos 0) (pos 0xffff) value),
  flag_if (outside (pos 0) (pos 0xffff) value) 18 g,
)

-- `SaturateSX2` and `SaturateSY2`, with their flags.
unfoldable pub saturate_screen : ℕ → ℤ → Gte → ℤ × Gte
saturate_screen flag value g = (
  clamp_ℤ (negsuc 1023) (pos 0x3ff) value,
  flag_if (outside (negsuc 1023) (pos 0x3ff) value) flag g,
)

unfoldable pub saturate_ir0 : ℤ → Gte → Gte
saturate_ir0 value g =
    let flagged = flag_if (outside (pos 0) (pos 0x1000) value) 12 g in
    set_low ir0 (bits_of 16 (clamp_ℤ (pos 0) (pos 0x1000) value)) flagged

unfoldable pub saturate_otz : ℤ → Gte → Gte
saturate_otz value g =
    let flagged = flag_if (outside (pos 0) (pos 0xffff) value) 18 g in
    set_low avg_z (bits_of 16 (clamp_ℤ (pos 0) (pos 0xffff) value)) flagged

-- `PushScreenFifo`, of a pair of shorts.
unfoldable pub push_screen_fifo : ℤ → ℤ → Gte → Gte
push_screen_fifo x y g =
    let moved = set_word (sxy 1) (g.regs (sxy 2)) (set_word (sxy 0) (g.regs (sxy 1)) g) in
    set_word (sxy 2) (bits_of 16 x + bits_of 16 y * 2 ^ 16) moved

unfoldable pub push_z_fifo : ℕ → Gte → Gte
push_z_fifo z g =
    let one = set_word (sz 0) (g.regs (sz 1)) g in
    let two = set_word (sz 1) (g.regs (sz 2)) one in
    set_low (sz 3) z (set_word (sz 2) (g.regs (sz 3)) two)

-- `SaturateColor`.
unfoldable pub saturate_color : ℕ → ℤ → Gte → ℕ × Gte
saturate_color id value g = (
  pos_part (clamp_ℤ (pos 0) (pos 0xff) value),
  flag_if (outside (pos 0) (pos 0xff) value) (21 - id) g,
)

-- `PushColorFifo` of the shifted accumulators.
unfoldable pub push_color_from_mac : Gte → Gte
push_color_from_mac g =
    let moved = set_word (rgb 1) (g.regs (rgb 2)) (set_word (rgb 0) (g.regs (rgb 1)) g) in
    let (red, g1) = saturate_color 0 (shift_right (word_signed (mac 1) g) 4) moved in
    let (green, g2) = saturate_color 1 (shift_right (word_signed (mac 2) g) 4) g1 in
    let (blue, g3) = saturate_color 2 (shift_right (word_signed (mac 3) g) 4) g2 in
    set_word (rgb 2) (red + green * 2 ^ 8 + blue * 2 ^ 16 + byte_at 3 color_value g * 2 ^ 24) g3
