-- ===== src/Gte/Mirror.antt =====
-- IRGB and ORGB always hold the color of IR1 to IR3.
use psx.Base.{
  ◌⊎◌, ◌<◌, ℕ, ◌+◌, ◌-◌, ◌%◌, ◌^◌, ◌≡◌, ◌≢◌, refl, sym, arith, if_either, Bool, Option, none, some,
  ap, ◌∙◌,
}
use psx.Base.Int.{ℤ, pos, negsuc, signed, shift_right, bits_of, clamp_ℤ, leb_ℤ, ltb_ℤ}
use psx.Base.Words.{set_bit}
use psx.Gte.Multiply.{vector_mul, check_ir}
use psx.Cpu.State.{update}
use psx.Gte.State.{Vec3, Gte, set_word, set_low, set_flag, low_signed, ir, flags}
use psx.Gte.Saturate
use psx.Gte.Perspective
use psx.Gte.Color
use psx.Gte.Command.{GteOpcode, run}

-- The color of IR1 to IR3.
abbrev pub ir_color : Gte → ℕ
ir_color g =
    Saturate.pack_color (Saturate.color_of (low_signed (ir 1) g))
      (Saturate.color_of (low_signed (ir 2) g)) (Saturate.color_of (low_signed (ir 3) g))

pub record IsMirrored (g : Gte) : Type 0 where
  pub input : g.regs 28 ≡ ir_color g
  pub output : g.regs 29 ≡ ir_color g

pub update_irgb-IsMirrored : (g : Gte) → IsMirrored (Saturate.update_irgb g)
unfolding Saturate.update_irgb
update_irgb-IsMirrored g = record { input = refl; output = refl }

-- A change of the registers that leaves these five.
kept :
    (g h : Gte)
    → h.regs 9 ≡ g.regs 9
    → h.regs 10 ≡ g.regs 10
    → h.regs 11 ≡ g.regs 11
    → h.regs 28 ≡ g.regs 28
    → h.regs 29 ≡ g.regs 29
    → IsMirrored g
    → IsMirrored h
kept g h a b c d e m = record { input = d ∙ m.input ∙ sym same; output = e ∙ m.output ∙ sym same }
  where
    color : ℕ → ℕ → ℕ → ℕ
    color a b c =
        Saturate.pack_color (Saturate.color_of (signed 16 (a % 2 ^ 16)))
          (Saturate.color_of (signed 16 (b % 2 ^ 16))) (Saturate.color_of (signed 16 (c % 2 ^ 16)))

    same : ir_color h ≡ ir_color g
    same =
        ap (λ t. color t (h.regs 10) (h.regs 11)) a
        ∙ ap (λ t. color (g.regs 9) t (h.regs 11)) b
        ∙ ap (λ t. color (g.regs 9) (g.regs 10) t) c

pub record Elsewhere (i : ℕ) : Type 0 where
  pub not_ir : (i < 9) ⊎ (11 < i)
  pub not_irgb : i ≢ 28
  pub not_orgb : i ≢ 29

pub set_word-IsMirrored :
    (i v : ℕ) (g : Gte) → Elsewhere i → IsMirrored g → IsMirrored (set_word i v g)
set_word-IsMirrored i v g away m =
    kept g (set_word i v g) (left 9 (omega (arith, away.not_ir)))
      (left 10 (omega (arith, away.not_ir))) (left 11 (omega (arith, away.not_ir)))
      (left 28 away.not_irgb) (left 29 away.not_orgb) m
  where
    left : (k : ℕ) → i ≢ k → update g.regs i v k ≡ g.regs k
    left k ne = ground arith

pub far_word-IsMirrored : (i v : ℕ) (g : Gte) → IsMirrored g → IsMirrored (set_word (32 + i) v g)
far_word-IsMirrored i v g =
    set_word-IsMirrored (32 + i) v g
      (record { not_ir = omega arith; not_irgb = omega arith; not_orgb = omega arith })

set_flag-IsMirrored : (k : ℕ) (g : Gte) → IsMirrored g → IsMirrored (set_flag k g)
set_flag-IsMirrored k g = far_word-IsMirrored 31 (set_bit k 1 (g.regs flags)) g

flag_if-IsMirrored :
    (b : Bool) (k : ℕ) (g : Gte) → IsMirrored g → IsMirrored (Saturate.flag_if b k g)
flag_if-IsMirrored b k g m = if_either IsMirrored b (set_flag-IsMirrored k g m) m

mac0-IsMirrored : (value : ℤ) (g : Gte) → IsMirrored g → IsMirrored (Saturate.set_mac0 value g)
unfolding Saturate.set_mac0
mac0-IsMirrored value g m = untouched (
    if_either IsMirrored (leb_ℤ (pos (2 ^ 31)) value) (set_flag-IsMirrored 16 g m)
      (flag_if-IsMirrored (ltb_ℤ value (negsuc (2 ^ 31 - 1))) 15 g m))
  where
    untouched : {f : Gte} → IsMirrored f → IsMirrored (set_word 24 (bits_of 32 value) f)
    untouched n = record { input = n.input; output = n.output }

average_z-IsMirrored :
    (value : ℤ) (g : Gte) → IsMirrored g → IsMirrored (Perspective.average_z value g)
unfolding Perspective.average_z Saturate.saturate_otz
average_z-IsMirrored value g m =
    untouched (
      flag_if-IsMirrored (Saturate.outside (pos 0) (pos 0xffff) z) 18 _ (mac0-IsMirrored value g m))
  where
    z : ℤ
    z = shift_right value 12

    untouched :
        {f : Gte}
        → IsMirrored f
        → IsMirrored (set_low 7 (bits_of 16 (clamp_ℤ (pos 0) (pos 0xffff) z)) f)
    untouched n = record { input = n.input; output = n.output }

rtps-IsMirrored :
    (n : ℕ) (depth lm : Bool) (sf : ℕ) (g : Gte) → IsMirrored (Perspective.rtps n depth lm sf g)
unfolding Perspective.rtps
rtps-IsMirrored n depth lm sf g = update_irgb-IsMirrored _

finish_color-IsMirrored : (g : Gte) → IsMirrored (Color.finish_color g)
unfolding Color.finish_color
finish_color-IsMirrored g = update_irgb-IsMirrored _

depth_cue-IsMirrored : (lm : Bool) (sf : ℕ) (g : Gte) → IsMirrored (Color.depth_cue lm sf g)
unfolding Color.depth_cue
depth_cue-IsMirrored lm sf g = finish_color-IsMirrored _

plain_color-IsMirrored : (lm : Bool) (sf : ℕ) (g : Gte) → IsMirrored (Color.plain_color lm sf g)
unfolding Color.plain_color
plain_color-IsMirrored lm sf g = finish_color-IsMirrored _

far_from-IsMirrored :
    (c : Vec3) (lm : Bool) (sf : ℕ) (g : Gte) → IsMirrored (Color.far_from c lm sf g)
unfolding Color.far_from
far_from-IsMirrored c lm sf g = finish_color-IsMirrored _

vector_mul-IsMirrored :
    (v w t : Vec3) (lm : Bool) (sf : ℕ) (g : Gte) → IsMirrored (vector_mul v w t lm sf g)
unfolding vector_mul check_ir Saturate.put_ir Saturate.saturate_ir
vector_mul-IsMirrored v w t lm sf g = update_irgb-IsMirrored _

-- Each command ends with the update of the color, or leaves the five registers.
pub run-IsMirrored :
    (code : Option GteOpcode) (cmd : ℕ) (g : Gte) → IsMirrored g → IsMirrored (run code cmd g)
unfolding run Perspective.nclip Perspective.avsz3 Perspective.avsz4 Perspective.rtpt Color.op
    Color.dpcs Color.intpl Color.mvmva Color.ncds Color.cdp Color.ncdt Color.nccs Color.cc Color.ncs
    Color.nct Color.sqr Color.dpcl Color.dpct Color.gpf Color.gpl Color.ncct
run-IsMirrored none cmd g m = m
run-IsMirrored (some GteOpcode.rtps) cmd g m = rtps-IsMirrored _ _ _ _ _
run-IsMirrored (some GteOpcode.nclip) cmd g m = mac0-IsMirrored _ g m
run-IsMirrored (some GteOpcode.op) cmd g m = update_irgb-IsMirrored _
run-IsMirrored (some GteOpcode.dpcs) cmd g m = far_from-IsMirrored _ _ _ _
run-IsMirrored (some GteOpcode.intpl) cmd g m = far_from-IsMirrored _ _ _ _
run-IsMirrored (some GteOpcode.mvmva) cmd g m = update_irgb-IsMirrored _
run-IsMirrored (some GteOpcode.ncds) cmd g m = depth_cue-IsMirrored _ _ _
run-IsMirrored (some GteOpcode.cdp) cmd g m = depth_cue-IsMirrored _ _ _
run-IsMirrored (some GteOpcode.ncdt) cmd g m = depth_cue-IsMirrored _ _ _
run-IsMirrored (some GteOpcode.nccs) cmd g m = plain_color-IsMirrored _ _ _
run-IsMirrored (some GteOpcode.cc) cmd g m = plain_color-IsMirrored _ _ _
run-IsMirrored (some GteOpcode.ncs) cmd g m = finish_color-IsMirrored _
run-IsMirrored (some GteOpcode.nct) cmd g m = finish_color-IsMirrored _
run-IsMirrored (some GteOpcode.sqr) cmd g m = vector_mul-IsMirrored _ _ _ _ _ _
run-IsMirrored (some GteOpcode.dpcl) cmd g m = depth_cue-IsMirrored _ _ _
run-IsMirrored (some GteOpcode.dpct) cmd g m = far_from-IsMirrored _ _ _ _
run-IsMirrored (some GteOpcode.avsz3) cmd g m = average_z-IsMirrored _ g m
run-IsMirrored (some GteOpcode.avsz4) cmd g m = average_z-IsMirrored _ g m
run-IsMirrored (some GteOpcode.rtpt) cmd g m = rtps-IsMirrored _ _ _ _ _
run-IsMirrored (some GteOpcode.gpf) cmd g m = finish_color-IsMirrored _
run-IsMirrored (some GteOpcode.gpl) cmd g m = finish_color-IsMirrored _
run-IsMirrored (some GteOpcode.ncct) cmd g m = plain_color-IsMirrored _ _ _
