-- ===== src/Gte/State.antt =====
-- The registers of the geometry engine: the union `GTE_Regs` of psxemu/include/psxemu/GTE.hpp. It is kept as
-- its 64 words, and its typed fields are read from them and written to them.
use psx.Base.{ℕ, ◌+◌, ◌*◌, ◌/◌, ◌%◌, ◌^◌}
use psx.Base.Int.{ℤ, pos, signed}
use psx.Base.Words.{set_bit}
use psx.Cpu.State.{update}

pub record Gte : Type 0 where
  pub regs : ℕ → ℕ
  pub cmd_interlock : ℕ

abbrev pub new_gte : Gte
new_gte = record { regs = λ i. 0; cmd_interlock = 0 }

-- A whole word, unsigned and signed.
abbrev pub set_word : ℕ → ℕ → Gte → Gte
set_word i v g = record g { regs = update g.regs i v }

abbrev pub word_signed : ℕ → Gte → ℤ
word_signed i g = signed 32 (g.regs i)

-- The two halves of a word.
abbrev pub low : ℕ → Gte → ℕ
low i g = g.regs i % 2 ^ 16

abbrev pub high : ℕ → Gte → ℕ
high i g = g.regs i / 2 ^ 16 % 2 ^ 16

abbrev pub set_low : ℕ → ℕ → Gte → Gte
set_low i v g = set_word i (g.regs i / 2 ^ 16 * 2 ^ 16 + v) g

abbrev pub low_signed : ℕ → Gte → ℤ
low_signed i g = signed 16 (low i g)

abbrev pub high_signed : ℕ → Gte → ℤ
high_signed i g = signed 16 (high i g)

-- A byte of a word.
abbrev pub byte_at : ℕ → ℕ → Gte → ℕ
byte_at k i g = g.regs i / 2 ^ (8 * k) % 2 ^ 8

-- `GTE_Vec3`.
pub record Vec3 : Type 0 where
  pub x : ℤ
  pub y : ℤ
  pub z : ℤ

abbrev pub zero_vec : Vec3
zero_vec = record { x = pos 0; y = pos 0; z = pos 0 }

-- `GTE_Matrix`, by rows.
pub record Matrix : Type 0 where
  pub row1 : Vec3
  pub row2 : Vec3
  pub row3 : Vec3

-- Three shorts from the word `i` on, of which the first two share one, and the matrix of nine of them.
abbrev pub short_vec : ℕ → Gte → Vec3
short_vec i g = record { x = low_signed i g; y = high_signed i g; z = low_signed (i + 1) g }

abbrev pub matrix_at : ℕ → Gte → Matrix
matrix_at i g = record {
  row1 = record { x = low_signed i g; y = high_signed i g; z = low_signed (i + 1) g };
  row2 = record { x = high_signed (i + 1) g; y = low_signed (i + 2) g; z = high_signed (i + 2) g };
  row3 = record { x = low_signed (i + 3) g; y = high_signed (i + 3) g; z = low_signed (i + 4) g };
}

abbrev pub word_vec : ℕ → Gte → Vec3
word_vec i g = record { x = word_signed i g; y = word_signed (i + 1) g; z = word_signed (i + 2) g }

-- `v0` to `v2`, of which the code asks for no other.
abbrev pub vector : ℕ → Gte → Vec3
vector n g = short_vec (2 * n) g

-- The fields by their places.
abbrev pub color_value : ℕ
color_value = 6

abbrev pub avg_z : ℕ
avg_z = 7

abbrev pub ir0 : ℕ
ir0 = 8

abbrev pub ir : ℕ → ℕ
ir n = 8 + n

abbrev pub sxy : ℕ → ℕ
sxy n = 12 + n

abbrev pub sz : ℕ → ℕ
sz n = 16 + n

abbrev pub rgb : ℕ → ℕ
rgb n = 20 + n

abbrev pub mac0 : ℕ
mac0 = 24

abbrev pub mac : ℕ → ℕ
mac n = 24 + n

abbrev pub irgb : ℕ
irgb = 28

abbrev pub lzc : ℕ
lzc = 30

abbrev pub rotation_matrix : ℕ
rotation_matrix = 32

abbrev pub translation_vec : ℕ
translation_vec = 37

abbrev pub light_matrix : ℕ
light_matrix = 40

abbrev pub bg_color_vec : ℕ
bg_color_vec = 45

abbrev pub light_color_mat : ℕ
light_color_mat = 48

abbrev pub far_color_vec : ℕ
far_color_vec = 53

abbrev pub screen_offset : ℕ
screen_offset = 56

abbrev pub proj_plane_dist : ℕ
proj_plane_dist = 58

abbrev pub dqa : ℕ
dqa = 59

abbrev pub dqb : ℕ
dqb = 60

abbrev pub avg_z_scale : ℕ → ℕ
avg_z_scale n = 61 + n

abbrev pub flags : ℕ
flags = 63

abbrev pub set_flag : ℕ → Gte → Gte
set_flag k g = set_word flags (set_bit k 1 (g.regs flags)) g

-- `IRToVec` and `IR0ToVec`.
abbrev pub ir_vec : Gte → Vec3
ir_vec g = record { x = low_signed (ir 1) g; y = low_signed (ir 2) g; z = low_signed (ir 3) g }

abbrev pub ir0_vec : Gte → Vec3
ir0_vec g = record { x = low_signed ir0 g; y = low_signed ir0 g; z = low_signed ir0 g }
