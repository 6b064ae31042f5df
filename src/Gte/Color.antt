-- ===== src/Gte/Color.antt =====
-- The commands on colors and the free products: psxemu/source/psxemu/GTEOpcodes.cpp.
use psx.Base.{ℕ, ◌-◌, ◌*◌, ◌^◌, Bool, true, false, ◌==◌, if◌then◌else◌}
use psx.Base.Int.{ℤ, pos, ◌+ℤ◌, ◌-ℤ◌, ◌*ℤ◌, to_signed, shift_right}
use psx.Gte.State.{
  Gte, Vec3, Matrix, zero_vec, low_signed, word_signed, byte_at, vector, matrix_at, word_vec,
  ir_vec, ir0_vec, ir, ir0, mac, rgb, color_value, rotation_matrix, translation_vec, light_matrix,
  bg_color_vec, light_color_mat, far_color_vec,
}
use psx.Gte.Saturate.{check_mac, set_mac, saturate_ir, push_color_from_mac, update_irgb}
use psx.Gte.Multiply.{shifted_left, put_irs, check_ir, vector_mul, vector_mat_mul, interpolate}

-- The end of each command on colors.
unfoldable pub finish_color : Gte → Gte
finish_color g = update_irgb (push_color_from_mac g)

-- `SetMac<n>(CheckMacOverflow<n>((c * ir) << 4))`.
unfoldable pub scale_color : ℕ → Gte → ℤ × Gte
scale_color n g =
    let c = pos (byte_at (n - 1) color_value g) in
    let (value, g1) = check_mac n (shifted_left 4 (c *ℤ low_signed (ir n) g)) g in
    (value, set_mac n value g1)

unfoldable pub scale_colors : Gte → Vec3 × Gte
scale_colors g =
    let (a, g1) = scale_color 1 g in
    let (b, g2) = scale_color 2 g1 in
    let (c, g3) = scale_color 3 g2 in (record { x = a; y = b; z = c }, g3)

-- From the color to the far color, as much as `ir0` says.
unfoldable pub depth_cue : Bool → ℕ → Gte → Gte
depth_cue lm sf g =
    let far = word_vec far_color_vec g in
    let (c, g0) = scale_colors g in
    let g1 = check_ir 1 (shifted_left 12 far.x -ℤ c.x) false sf g0 in
    let g2 = check_ir 2 (shifted_left 12 far.y -ℤ c.y) false sf g1 in
    let g3 = check_ir 3 (shifted_left 12 far.z -ℤ c.z) false sf g2 in
    let g4 = check_ir 1 (c.x +ℤ low_signed (ir 1) g3 *ℤ low_signed ir0 g3) lm sf g3 in
    let g5 = check_ir 2 (c.y +ℤ low_signed (ir 2) g4 *ℤ low_signed ir0 g4) lm sf g4 in
    let g6 = check_ir 3 (c.z +ℤ low_signed (ir 3) g5 *ℤ low_signed ir0 g5) lm sf g5 in
    finish_color g6

unfoldable pub plain_color : Bool → ℕ → Gte → Gte
plain_color lm sf g = let (c, g1) = scale_colors g in finish_color (put_irs c.x c.y c.z lm sf g1)

-- The light on the vector `n`, and the color of `ir`.
unfoldable pub light : ℕ → Bool → ℕ → Gte → Gte
light n lm sf g = vector_mat_mul (matrix_at light_matrix g) (vector n g) zero_vec lm sf g

unfoldable pub light_color : Bool → ℕ → Gte → Gte
light_color lm sf g =
    vector_mat_mul (matrix_at light_color_mat g) (ir_vec g) (word_vec bg_color_vec g) lm sf g

unfoldable pub ncds : ℕ → Bool → ℕ → Gte → Gte
ncds n lm sf g = depth_cue lm sf (light_color lm sf (light n lm sf g))

unfoldable pub cdp : Bool → ℕ → Gte → Gte
cdp lm sf g = depth_cue lm sf (light_color lm sf g)

unfoldable pub dpcl : Bool → ℕ → Gte → Gte
dpcl lm sf g = depth_cue lm sf g

unfoldable pub nccs : ℕ → Bool → ℕ → Gte → Gte
nccs n lm sf g = plain_color lm sf (light_color lm sf (light n lm sf g))

unfoldable pub cc : Bool → ℕ → Gte → Gte
cc lm sf g = plain_color lm sf (light_color lm sf g)

unfoldable pub ncs : ℕ → Bool → ℕ → Gte → Gte
ncs n lm sf g = finish_color (light_color lm sf (light n lm sf g))

-- A command for each of the three vectors.
abbrev three : (ℕ → Gte → Gte) → Gte → Gte
three f g = f 2 (f 1 (f 0 g))

unfoldable pub ncdt : Bool → ℕ → Gte → Gte
ncdt lm sf g = three (λ n. ncds n lm sf) g

unfoldable pub ncct : Bool → ℕ → Gte → Gte
ncct lm sf g = three (λ n. nccs n lm sf) g

unfoldable pub nct : Bool → ℕ → Gte → Gte
nct lm sf g = three (λ n. ncs n lm sf) g

-- `DPCS` and `INTPL`, from the color `c` on.
unfoldable pub far_from : Vec3 → Bool → ℕ → Gte → Gte
far_from c lm sf g =
    let far = word_vec far_color_vec g in
    let (x, g1) = check_mac 1 (shifted_left 12 far.x -ℤ shifted_left 12 c.x) g in
    let (y, g2) = check_mac 2 (shifted_left 12 far.y -ℤ shifted_left 12 c.y) g1 in
    let (z, g3) = check_mac 3 (shifted_left 12 far.z -ℤ shifted_left 12 c.z) g2 in
    let h = put_irs x y z false sf g3 in finish_color (vector_mul (ir0_vec h) (ir_vec h) c lm sf h)

unfoldable pub dpcs : Bool → Bool → ℕ → Gte → Gte
dpcs use_fifo lm sf g =
    let i = if use_fifo then rgb 0 else color_value in
    far_from
      (record {
        x = pos (byte_at 0 i g * 2 ^ 4);
        y = pos (byte_at 1 i g * 2 ^ 4);
        z = pos (byte_at 2 i g * 2 ^ 4);
      })
      lm sf g

unfoldable pub intpl : Bool → ℕ → Gte → Gte
intpl lm sf g = far_from (ir_vec g) lm sf g

unfoldable pub dpct : Bool → ℕ → Gte → Gte
dpct lm sf g = dpcs true lm sf (dpcs true lm sf (dpcs true lm sf g))

unfoldable pub sqr : ℕ → Gte → Gte
sqr sf g = vector_mul (ir_vec g) (ir_vec g) zero_vec false sf g

unfoldable pub op : Bool → ℕ → Gte → Gte
op lm sf g =
    let m = matrix_at rotation_matrix g in
    let v = ir_vec g in
    let (a, g1) = check_mac 1 (v.z *ℤ m.row2.y -ℤ v.y *ℤ m.row3.z) g in
    let (b, g2) = check_mac 2 (v.x *ℤ m.row3.z -ℤ v.z *ℤ m.row1.x) g1 in
    let (c, g3) = check_mac 3 (v.y *ℤ m.row1.x -ℤ v.x *ℤ m.row2.y) g2 in
    update_irgb (put_irs a b c lm sf g3)

unfoldable pub gpf : Bool → ℕ → Gte → Gte
gpf lm sf g = finish_color (interpolate (pos 0) (pos 0) (pos 0) lm sf g)

unfoldable pub gpl : Bool → ℕ → Gte → Gte
gpl lm sf g =
    let (a, g1) = check_mac 1 (shifted_left (12 * sf) (word_signed (mac 1) g)) g in
    let (b, g2) = check_mac 2 (shifted_left (12 * sf) (word_signed (mac 2) g)) g1 in
    let (c, g3) = check_mac 3 (shifted_left (12 * sf) (word_signed (mac 3) g)) g2 in
    finish_color (interpolate a b c lm sf g3)

-- The operands of `MVMVA`.
unfoldable pub mul_matrix : ℕ → Gte → Matrix
mul_matrix mat g =
    let r = pos (byte_at 0 color_value g * 2 ^ 4) in
    let rot = matrix_at rotation_matrix g in
    if mat == 0
    then rot
    else if mat == 1
    then matrix_at light_matrix g
    else if mat == 2
    then matrix_at light_color_mat g
    else record {
      row1 = record { x = pos 0 -ℤ r; y = r; z = low_signed ir0 g };
      row2 = record { x = rot.row1.z; y = rot.row1.z; z = rot.row1.z };
      row3 = record { x = rot.row2.y; y = rot.row2.y; z = rot.row2.y };
    }

unfoldable pub mul_vector : ℕ → Gte → Vec3
mul_vector vec g = if vec == 3 then ir_vec g else vector vec g

unfoldable pub mul_translation : ℕ → Gte → Vec3
mul_translation translation g =
    if translation == 0
    then word_vec translation_vec g
    else if translation == 1
    then word_vec bg_color_vec g
    else if translation == 2
    then word_vec far_color_vec g
    else zero_vec

-- A row of the faulty product with the far color: the first part only sets flags and `ir`.
unfoldable pub far_part : ℕ → ℤ → ℤ → ℕ → Gte → Gte
far_part n t product sf g =
    let (a, g1) = check_mac n (shifted_left 12 t +ℤ product) g in
    saturate_ir n (to_signed 32 (shift_right a (12 * sf))) false g1

unfoldable pub far_row : ℕ → Vec3 → Vec3 → Gte → ℤ × Gte
far_row n m v g = let (a, g1) = check_mac n (m.y *ℤ v.y) g in check_mac n (a +ℤ m.z *ℤ v.z) g1

unfoldable pub far_product : Matrix → Vec3 → Vec3 → Bool → ℕ → Gte → Gte
far_product m v t lm sf g =
    let h1 = far_part 1 t.x (m.row1.x *ℤ v.x) sf g in
    let h2 = far_part 2 t.y (m.row2.x *ℤ v.x) sf h1 in
    let h3 = far_part 3 t.z (m.row3.x *ℤ v.x) sf h2 in
    let (a, g1) = far_row 1 m.row1 v h3 in
    let (b, g2) = far_row 2 m.row2 v g1 in
    let (c, g3) = far_row 3 m.row3 v g2 in put_irs a b c lm sf g3

unfoldable pub mvmva : ℕ → ℕ → ℕ → Bool → ℕ → Gte → Gte
mvmva mat vec translation lm sf g =
    let m = mul_matrix mat g in
    let v = mul_vector vec g in
    let t = mul_translation translation g in
    update_irgb
      (if translation == 2 then far_product m v t lm sf g else vector_mat_mul m v t lm sf g)
