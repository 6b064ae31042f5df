-- ===== src/Gte/Access.antt =====
-- The accesses of the processor and the commands of psxemu/source/psxemu/GTE.cpp keep the color of IR1 to IR3.
use mathlib.Core.Path.{subst}
use psx.Base.{
  ℕ, ◌+◌, ◌*◌, ◌-◌, ◌/◌, ◌%◌, ◌^◌, ◌≡◌, ◌<◌, ◌⊎◌, inl, inr, refl, sym, arith, ◌==◌, leb, ◌&&◌, ◌||◌,
  if_either, if_cases, Bool, true, false, ap, ap₂, ◌∙◌,
}
use psx.Base.Int.{ℤ, signed, quot, clamp_ℤ}
use psx.Cpu.State.{Status}
use psx.Gte.State.{Gte, new_gte, set_word, low_signed, flags}
use psx.Gte.Saturate.{color_of, pack_color, push_screen_fifo}
use psx.Gte.Registers.{
  is_short, sum_flags, write_data, write_control, control_value, write_ir, write_irgb, write_lzc,
  color_field,
}
use psx.Gte.Command.{gte_opcode, gte_cmd}
use psx.Gte.Mirror.{
  Elsewhere, IsMirrored, ir_color, set_word-IsMirrored, far_word-IsMirrored, run-IsMirrored,
}

color_of_lt : (value : ℤ) → color_of value < 32
unfolding color_of clamp_ℤ
color_of_lt value = ground arith

color_of_scaled : (x f : ℕ) → f < 32 → color_of (signed 16 ((x * 2 ^ 16 + f * 0x80) % 2 ^ 16)) ≡ f
unfolding color_of clamp_ℤ signed quot
color_of_scaled x f h = ap (λ t. color_of (signed 16 t)) (cut x f h) ∙ small f h
  where
    cut : (x f : ℕ) → f < 32 → (x * 2 ^ 16 + f * 0x80) % 2 ^ 16 ≡ f * 0x80
    cut x f h = omega arith

    small : (f : ℕ) → f < 32 → color_of (signed 16 (f * 0x80)) ≡ f
    small f h = ground arith

field0 : (a b c : ℕ) → a < 32 → b < 32 → c < 32 → color_field 0 (pack_color a b c) ≡ a
field0 a b c p q r = omega arith

field1 : (a b c : ℕ) → a < 32 → b < 32 → c < 32 → color_field 1 (pack_color a b c) ≡ b
field1 a b c p q r = omega arith

field2 : (a b c : ℕ) → a < 32 → b < 32 → c < 32 → color_field 2 (pack_color a b c) ≡ c
field2 a b c p q r = omega arith

packed : (v : ℕ) → pack_color (color_field 0 v) (color_field 1 v) (color_field 2 v) ≡ v % 2 ^ 15
packed v = omega arith

write_irgb-IsMirrored : (value : ℕ) (g : Gte) → IsMirrored (write_irgb value g)
unfolding write_irgb
write_irgb-IsMirrored value g = record { input = same; output = same }
  where
    part :
        (k i : ℕ)
        → color_field k value
          ≡ color_of
              (signed 16 ((g.regs i / 2 ^ 16 * 2 ^ 16 + color_field k value * 0x80) % 2 ^ 16))
    part k i = sym (color_of_scaled (g.regs i / 2 ^ 16) (color_field k value) (omega arith))

    same : value % 2 ^ 15 ≡ ir_color (write_irgb value g)
    same =
        sym (packed value)
        ∙ ap (λ t. pack_color t (color_field 1 value) (color_field 2 value)) (part 0 9)
        ∙ ap
            (λ t. pack_color (color_of (low_signed 9 (write_irgb value g))) t (color_field 2 value))
            (part 1 10)
        ∙ ap
            (λ t.
              pack_color (color_of (low_signed 9 (write_irgb value g)))
                (color_of (low_signed 10 (write_irgb value g))) t)
            (part 2 11)

-- The three colors of the word that is kept.
old0 : (g : Gte) → IsMirrored g → color_field 0 (g.regs 29) ≡ color_of (low_signed 9 g)
old0 g m =
    ap (color_field 0) m.output ∙ field0 _ _ _ (color_of_lt _) (color_of_lt _) (color_of_lt _)

old1 : (g : Gte) → IsMirrored g → color_field 1 (g.regs 29) ≡ color_of (low_signed 10 g)
old1 g m =
    ap (color_field 1) m.output ∙ field1 _ _ _ (color_of_lt _) (color_of_lt _) (color_of_lt _)

old2 : (g : Gte) → IsMirrored g → color_field 2 (g.regs 29) ≡ color_of (low_signed 11 g)
old2 g m =
    ap (color_field 2) m.output ∙ field2 _ _ _ (color_of_lt _) (color_of_lt _) (color_of_lt _)

first_ir : (value : ℕ) (g : Gte) → IsMirrored g → IsMirrored (write_ir 1 value g)
unfolding write_ir
first_ir value g m = record { input = same; output = same }
  where
    new : ℕ
    new = color_of (signed 16 (value % 2 ^ 16))

    same :
        pack_color new (color_field 1 (g.regs 29)) (color_field 2 (g.regs 29))
        ≡ pack_color new (color_of (low_signed 10 g)) (color_of (low_signed 11 g))
    same = ap₂ (pack_color new) (old1 g m) (old2 g m)

second_ir : (value : ℕ) (g : Gte) → IsMirrored g → IsMirrored (write_ir 2 value g)
unfolding write_ir
second_ir value g m = record { input = same; output = same }
  where
    new : ℕ
    new = color_of (signed 16 (value % 2 ^ 16))

    same :
        pack_color (color_field 0 (g.regs 29)) new (color_field 2 (g.regs 29))
        ≡ pack_color (color_of (low_signed 9 g)) new (color_of (low_signed 11 g))
    same = ap₂ (λ r b. pack_color r new b) (old0 g m) (old2 g m)

third_ir : (value : ℕ) (g : Gte) → IsMirrored g → IsMirrored (write_ir 3 value g)
unfolding write_ir
third_ir value g m = record { input = same; output = same }
  where
    new : ℕ
    new = color_of (signed 16 (value % 2 ^ 16))

    same :
        pack_color (color_field 0 (g.regs 29)) (color_field 1 (g.regs 29)) new
        ≡ pack_color (color_of (low_signed 9 g)) (color_of (low_signed 10 g)) new
    same = ap₂ (λ r b. pack_color r b new) (old0 g m) (old1 g m)

which : (n : ℕ) → leb 9 n && leb n 11 ≡ true → (n - 8 ≡ 1) ⊎ (n - 8 ≡ 2) ⊎ (n - 8 ≡ 3)
which n h = ground arith

-- The color after a write of one of IR1 to IR3, of which the other two stay.
write_ir-IsMirrored :
    (n value : ℕ) (g : Gte)
    → leb 9 n && leb n 11 ≡ true
    → IsMirrored g
    → IsMirrored (write_ir (n - 8) value g)
write_ir-IsMirrored n value g h m = elim (which n h) [
  | inl e ↦ subst (λ t. IsMirrored (write_ir t value g)) (sym e) (first_ir value g m)
  | inr (inl e) ↦ subst (λ t. IsMirrored (write_ir t value g)) (sym e) (second_ir value g m)
  | inr (inr e) ↦ subst (λ t. IsMirrored (write_ir t value g)) (sym e) (third_ir value g m)
]

abbrev is_narrow : ℕ → Bool
is_narrow reg = reg == 7 || leb 16 reg && leb reg 19

elsewhere :
    (reg : ℕ)
    → leb 9 reg && leb reg 11 ≡ false
    → reg == 28 ≡ false
    → reg == 29 || reg == 31 ≡ false
    → Elsewhere reg
elsewhere reg h k l = record {
  not_ir = ground arith;
  not_irgb = ground arith;
  not_orgb = ground arith;
}

narrow-Elsewhere : (reg : ℕ) → is_narrow reg ≡ true → Elsewhere reg
narrow-Elsewhere reg h = record {
  not_ir = ground arith;
  not_irgb = ground arith;
  not_orgb = ground arith;
}

points-IsMirrored :
    (value : ℕ) (x y : ℤ) (g : Gte)
    → IsMirrored g
    → IsMirrored (set_word 15 value (push_screen_fifo x y g))
unfolding push_screen_fifo
points-IsMirrored value x y g m = record { input = m.input; output = m.output }

write_lzc-IsMirrored : (value : ℕ) (g : Gte) → IsMirrored g → IsMirrored (write_lzc value g)
unfolding write_lzc
write_lzc-IsMirrored value g m = record { input = m.input; output = m.output }

pub write_data-IsMirrored :
    (reg value : ℕ) (g : Gte) → IsMirrored g → IsMirrored (write_data reg value g)
unfolding write_data
write_data-IsMirrored reg value g m =
    if_cases IsMirrored (leb 9 reg && leb reg 11) (λ h. write_ir-IsMirrored reg value g h m)
      (λ not_ir. if_either IsMirrored (reg == 15) (points-IsMirrored value _ _ g m) (
        if_cases IsMirrored (reg == 28) (λ h. write_irgb-IsMirrored value g)
          (λ not_irgb. if_either IsMirrored (reg == 30) (write_lzc-IsMirrored value g m) (
            if_cases IsMirrored (is_narrow reg)
              (λ h. set_word-IsMirrored reg (value % 2 ^ 16) g (narrow-Elsewhere reg h) m)
              (λ h.
                if_cases IsMirrored (reg == 29 || reg == 31) (λ k. m)
                  (λ k. set_word-IsMirrored reg value g (elsewhere reg not_ir not_irgb k) m))))))

pub write_control-IsMirrored :
    (reg value : ℕ) (g : Gte) → IsMirrored g → IsMirrored (write_control reg value g)
unfolding write_control
write_control-IsMirrored reg value g m = far_word-IsMirrored reg _ g m

pub control_value-IsMirrored :
    (reg : ℕ) (g : Gte) → IsMirrored g → IsMirrored ((control_value reg g).1)
unfolding control_value
control_value-IsMirrored reg g m =
    if_either (λ (t : ℕ × Gte). IsMirrored (t.1)) (is_short (32 + reg)) m
      (if_either (λ (t : ℕ × Gte). IsMirrored (t.1)) (32 + reg == flags)
        (far_word-IsMirrored 31 (sum_flags (g.regs flags)) g m) m)

pub new_gte-IsMirrored : IsMirrored new_gte
unfolding color_of clamp_ℤ signed quot
new_gte-IsMirrored = record { input = refl; output = refl }

pub gte_cmd-IsMirrored :
    {Bus : Type 0} (add_cycles : ℕ → Bus → Bus) (cmd : ℕ) (s : Status) (g : Gte) (bus : Bus)
    → IsMirrored g
    → IsMirrored ((gte_cmd add_cycles cmd s g bus).0)
unfolding gte_cmd
gte_cmd-IsMirrored add_cycles cmd s g bus m =
    let n =
      run-IsMirrored (gte_opcode cmd) cmd (set_word flags 0 g) (far_word-IsMirrored 31 0 g m) in
    record { input = n.input; output = n.output }
