-- ===== src/Gte/Multiply.antt =====
-- The products of vectors and matrices: psxemu/source/psxemu/GTEOpcodes.cpp.
use psx.Base.{ℕ, ◌^◌, Bool}
use psx.Base.Int.{ℤ, pos, ◌+ℤ◌, ◌*ℤ◌}
use psx.Gte.State.{Gte, Vec3, Matrix, ir, ir0, low_signed}
use psx.Gte.Saturate.{check_mac, put_ir}

-- `x << n`.
abbrev pub shifted_left : ℕ → ℤ → ℤ
shifted_left n x = x *ℤ pos (2 ^ n)

-- The three checked sums of a row.
unfoldable pub mat_row : ℕ → Vec3 → Vec3 → ℤ → Gte → ℤ × Gte
mat_row n m v t g =
    let (one, g1) = check_mac n (shifted_left 12 t +ℤ m.x *ℤ v.x) g in
    let (two, g2) = check_mac n (one +ℤ m.y *ℤ v.y) g1 in check_mac n (two +ℤ m.z *ℤ v.z) g2

-- Three accumulators, one after another.
abbrev pub put_irs : ℤ → ℤ → ℤ → Bool → ℕ → Gte → Gte
put_irs a b c lm sf g = put_ir 3 c lm sf (put_ir 2 b lm sf (put_ir 1 a lm sf g))

-- `VectorMatMul`.
unfoldable pub vector_mat_mul : Matrix → Vec3 → Vec3 → Bool → ℕ → Gte → Gte
vector_mat_mul m v t lm sf g =
    let (a, g1) = mat_row 1 m.row1 v t.x g in
    let (b, g2) = mat_row 2 m.row2 v t.y g1 in
    let (c, g3) = mat_row 3 m.row3 v t.z g2 in put_irs a b c lm sf g3

-- A value that is checked and goes to an accumulator at once.
unfoldable pub check_ir : ℕ → ℤ → Bool → ℕ → Gte → Gte
check_ir n value lm sf g = let (a, g1) = check_mac n value g in put_ir n a lm sf g1

-- `VectorMul`.
unfoldable pub vector_mul : Vec3 → Vec3 → Vec3 → Bool → ℕ → Gte → Gte
vector_mul v w t lm sf g =
    let one = check_ir 1 (shifted_left 12 t.x +ℤ v.x *ℤ w.x) lm sf g in
    let two = check_ir 2 (shifted_left 12 t.y +ℤ v.y *ℤ w.y) lm sf one in
    check_ir 3 (shifted_left 12 t.z +ℤ v.z *ℤ w.z) lm sf two

-- `Interpolate`.
unfoldable pub interpolate : ℤ → ℤ → ℤ → Bool → ℕ → Gte → Gte
interpolate a b c lm sf g =
    let (x, g1) = check_mac 1 (low_signed (ir 1) g *ℤ low_signed ir0 g +ℤ a) g in
    let (y, g2) = check_mac 2 (low_signed (ir 2) g *ℤ low_signed ir0 g +ℤ b) g1 in
    let (z, g3) = check_mac 3 (low_signed (ir 3) g *ℤ low_signed ir0 g +ℤ c) g2 in
    put_irs x y z lm sf g3
