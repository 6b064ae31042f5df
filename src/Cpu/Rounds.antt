-- ===== src/Cpu/Rounds.antt =====
-- `StepInstruction` of psxemu/source/psxemu/MIPS1.cpp, and the geometry engine in its rounds.
use psx.Base.{
  ℕ, Bool, true, false, not, ◌||◌, ◌==◌, ◌%◌, ◌^◌, Option, none, some, List, [], ◌∷◌, if_either,
  arith,
}
use psx.Cpu.State.{Machine, Env, SyscallFrame, Holds, Holds-bind}
use psx.Cpu.Exceptions.{exception}
use psx.Cpu.Step.{
  check_interrupts, update_load_delay, update_reg_writeback, flush_load_delay, leave_branch,
  set_frames, check_alignment, is_bios_call, read_word, check_instruction_gte, take_interrupt,
  poll_interrupts, fetch, unwind, push_frame, hle_bios, end_in_exception, after_hle, end_in_jump,
  end_in_sequence, finish, reset_zero, execute, step_instruction,
}
use psx.Cpu.Engine.{Kept, Keeps, interpret-Kept}

module _ (env : Env) (P : env.Gte → Type 0) (keeps : Keeps env P) where
  open env use {Bus, Gte, hle_handler, add_cycles}

  abbrev Kept₂ : {A : Type 0} → Option (A × Machine Bus Gte) → Type 0
  Kept₂ = Holds (λ r. P (r.1.gte))

  abbrev With : {A : Type 0} → A × Machine Bus Gte → Type 0
  With r = P (r.1.gte)

  abbrev Now : Machine Bus Gte → Type 0
  Now m = P (m.gte)

  check_alignment-Kept : (m : Machine Bus Gte) → P (m.gte) → P ((check_alignment m).gte)
  unfolding check_alignment leave_branch exception
  check_alignment-Kept m h = if_either Now (m.cpu.pc % 4 == 0) h h

  read_word-Kept :
      (e c : Bool) (a : ℕ) (m : Machine Bus Gte) → P (m.gte) → Kept₂ (read_word env e c a m)
  unfolding read_word
  read_word-Kept e c a m h = ground arith

  poll_interrupts-Kept : (m : Machine Bus Gte) → P (m.gte) → Kept P (poll_interrupts env m)
  unfolding poll_interrupts check_instruction_gte take_interrupt leave_branch exception
      flush_load_delay
  poll_interrupts-Kept m h =
      if_either (Kept P) (check_interrupts m)
        (Holds-bind (With {A = Bool}) Now _ _
          (Holds-bind (With {A = ℕ}) (With {A = Bool}) _ _ (read_word-Kept false false m.cpu.pc m h)
            (λ r k. k))
          (λ (is_gte, t) k. if_either (Kept P) (not is_gte || t.cpu.rerun_gte) k k))
        h

  frame-Kept :
      (b c : Bool) (x y : Option (Machine Bus Gte))
      → Kept P x
      → Kept P y
      → Kept P (elim b [ false ↦ x | true ↦ elim c [ true ↦ none | false ↦ y ] ])
  frame-Kept false c x y h k = h
  frame-Kept true false x y h k = k
  frame-Kept true true x y h k = tt

  unwind-Kept :
      (a : ℕ) (fs : List SyscallFrame) (m : Machine Bus Gte)
      → P (m.gte)
      → Kept P (unwind env a fs m)
  unfolding unwind
  unwind-Kept a [] m h = tt
  unwind-Kept a (f ∷ rest) m h =
      frame-Kept (f.exitpoint == a) (f.exitpoint == 0xffff_ffff) (some (set_frames (f ∷ rest) m)) _
        h
        (Holds-bind (With {A = Bool}) Now _ _
          (keeps.handles f.syscall_id false (set_frames rest m) h)
          (λ (b, t) k. unwind-Kept a rest t k))

  push_frame-Kept : (a : ℕ) (m : Machine Bus Gte) → P (m.gte) → Kept P (push_frame env a m)
  unfolding push_frame
  push_frame-Kept a m h = ground arith

  hle_bios-Kept : (a : ℕ) (m : Machine Bus Gte) → P (m.gte) → Kept₂ (hle_bios env a m)
  unfolding hle_bios
  hle_bios-Kept a m h =
      if_either Kept₂ (is_bios_call (a % 2 ^ 29))
        (Holds-bind (With {A = Bool}) (With {A = Bool}) _ _ (keeps.handles (a % 2 ^ 29) true m h)
          (λ (b, t) k.
            if_either Kept₂ b
              (Holds-bind Now (With {A = Bool}) _ _ (push_frame-Kept (a % 2 ^ 29) t k) (λ u l. l))
              k))
        (Holds-bind Now (With {A = Bool}) _ _ (unwind-Kept (a % 2 ^ 29) m.cpu.frames m h)
          (λ t k. k))

  finish-Kept : (d t : Bool) (m : Machine Bus Gte) → P (m.gte) → Kept P (finish env d t m)
  unfolding finish end_in_exception end_in_jump end_in_sequence leave_branch exception
      flush_load_delay update_reg_writeback update_load_delay
  finish-Kept d t m h = if_either (Kept P) m.status.exception h (
      if_either (Kept P) t
        (Holds-bind (With {A = Bool}) Now _ _ (hle_bios-Kept _ _ h) after_hle-Kept) h)
    where
      after_hle-Kept : (r : Bool × Machine Bus Gte) → P (r.1.gte) → Kept P (some (after_hle env r))
      after_hle-Kept (true, u) k = k
      after_hle-Kept (false, u) k = k

  execute-Kept : (m : Machine Bus Gte) → P (m.gte) → Kept P (execute env m)
  unfolding execute fetch reset_zero
  execute-Kept m h =
      Holds-bind (With {A = ℕ}) Now _ _ (read_word-Kept _ _ m.cpu.pc m h) (λ (i, t) k.
        Holds-bind Now Now _ _
          (if_either (Kept P) t.status.exception k (interpret-Kept env P keeps i t k))
          (λ u l.
            Holds-bind Now Now _ _ (finish-Kept m.status.branch_delay m.status.branch_taken _ l)
              (λ v n. n)))

  -- A property of the geometry engine that its operations and the hooks of the kernel keep holds after each
  -- instruction too, where it held before.
  pub step_instruction-Kept : (m : Machine Bus Gte) → P (m.gte) → Kept P (step_instruction env m)
  unfolding step_instruction
  step_instruction-Kept m h =
      Holds-bind Now Now _ _ (poll_interrupts-Kept (check_alignment m) (check_alignment-Kept m h))
        execute-Kept
