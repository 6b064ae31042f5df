-- ===== src/Gte/Registers.antt =====
-- The accesses of the processor to the registers: psxemu/source/psxemu/GTE.cpp.
use psx.Base.{
  ℕ, zero, suc, ◌+◌, ◌-◌, ◌*◌, ◌/◌, ◌%◌, ◌^◌, bit_and, Bool, ◌&&◌, ◌||◌, ◌==◌, leb, ltb,
  if◌then◌else◌,
}
use psx.Base.Int.{signed, bits_of}
use psx.Base.Words.{set_bit}
use psx.Cpu.State.{Status}
use psx.Gte.State.{Gte, set_word, low, high, low_signed, set_low, avg_z, ir, sxy, irgb, lzc, flags}
use psx.Gte.Saturate.{color_of, pack_color, push_screen_fifo}

-- The number of zeros at the top of `w` bits.
unfoldable pub countl_zero : ℕ → ℕ → ℕ
countl_zero zero n = 0
countl_zero (suc w) n = let rest = countl_zero w n in if leb (2 ^ w) n then 0 else suc rest

-- `ReadData`, without the interlock. The word of a short is read with its sign.
unfoldable pub data_value : ℕ → Gte → ℕ
data_value reg g =
    if reg == 1 || reg == 3 || reg == 5 || leb 8 reg && leb reg 11
    then bits_of 32 (low_signed reg g)
    else if reg == 7
    then low avg_z g
    else if reg == 15
    then low (sxy 2) g + high (sxy 2) g * 2 ^ 16
    else g.regs reg

-- The flags with bit 31 for those that are errors.
abbrev pub error_flags : ℕ
error_flags = 0xff * 2 ^ 23 + 0x3f * 2 ^ 13

unfoldable pub sum_flags : ℕ → ℕ
sum_flags raw = set_bit 31 (if bit_and raw error_flags == 0 then 0 else 1) raw

-- Whether a control register is a single short.
abbrev pub is_short : ℕ → Bool
is_short i = i == 36 || i == 44 || i == 52 || i == 58 || i == 59 || i == 61 || i == 62

-- `ReadControl`, without the interlock.
unfoldable pub control_value : ℕ → Gte → ℕ × Gte
control_value reg g =
    let i = 32 + reg in
    let raw = sum_flags (g.regs flags) in
    if is_short i
    then (bits_of 32 (low_signed i g), g)
    else if i == flags
    then (raw, set_word flags raw g)
    else (g.regs i, g)

-- The five bits of a color at a place of a word.
abbrev pub color_field : ℕ → ℕ → ℕ
color_field k x = x / 2 ^ (5 * k) % 2 ^ 5

-- A write of `ir1` to `ir3` changes their color.
unfoldable pub write_ir : ℕ → ℕ → Gte → Gte
write_ir n value g =
    let new = color_of (signed 16 (value % 2 ^ 16)) in
    let old = g.regs (irgb + 1) in
    let color =
      pack_color (if n == 1 then new else color_field 0 old)
        (if n == 2 then new else color_field 1 old) (if n == 3 then new else color_field 2 old) in
    set_word (ir n) value (set_word (irgb + 1) color (set_word irgb color g))

-- A write of `irgb` sets `ir1` to `ir3`.
unfoldable pub write_irgb : ℕ → Gte → Gte
write_irgb value g =
    let color = value % 2 ^ 15 in
    let blue = set_low (ir 3) (color_field 2 value * 0x80) g in
    let green = set_low (ir 2) (color_field 1 value * 0x80) blue in
    let red = set_low (ir 1) (color_field 0 value * 0x80) green in
    set_word irgb color (set_word (irgb + 1) color red)

unfoldable pub write_lzc : ℕ → Gte → Gte
write_lzc value g =
    let count =
      if ltb value (2 ^ 31) then countl_zero 32 value else countl_zero 32 (2 ^ 32 - 1 - value) in
    set_word lzc value (set_word (lzc + 1) count g)

-- `WriteData`.
unfoldable pub write_data : ℕ → ℕ → Gte → Gte
write_data reg value g =
    if leb 9 reg && leb reg 11
    then write_ir (reg - 8) value g
    else if reg == 15
    then set_word 15 value
        (push_screen_fifo (signed 16 (value % 2 ^ 16)) (signed 16 (value / 2 ^ 16 % 2 ^ 16)) g)
    else if reg == 28
    then write_irgb value g
    else if reg == 30
    then write_lzc value g
    else if reg == 7 || leb 16 reg && leb reg 19
    then set_word reg (value % 2 ^ 16) g
    else if reg == 29 || reg == 31
    then g
    else set_word reg value g

-- `WriteControl`.
unfoldable pub write_control : ℕ → ℕ → Gte → Gte
write_control reg value g =
    set_word (32 + reg) (if 32 + reg == flags then value / 2 ^ 12 * 2 ^ 12 else value) g

-- A bus whose cycles `InterlockCommand` counts.
module _ {Bus : Type 0} (add_cycles : ℕ → Bus → Bus) where
  unfoldable pub interlock_command : Status → Gte → Bus → Bus
  interlock_command s g bus =
      if leb g.cmd_interlock s.now then bus else add_cycles (g.cmd_interlock - s.now) bus

  unfoldable pub read_data : ℕ → Status → Gte → Bus → ℕ × Gte × Bus
  read_data reg s g bus = (data_value reg g, g, interlock_command s g bus)

  unfoldable pub read_control : ℕ → Status → Gte → Bus → ℕ × Gte × Bus
  read_control reg s g bus =
      let (value, after) = control_value reg g in (value, after, interlock_command s g bus)
