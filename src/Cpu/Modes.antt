-- ===== src/Cpu/Modes.antt =====
-- The mode stack of the status register and the exception entry: laws of the functions of
-- psxemu/source/psxemu/cop0.cpp and of `system_status::Exception`.
use psx.Base.{
  Option, ap, ◌∙◌, some, ℕ, ◌+◌, ◌*◌, ◌/◌, ◌%◌, ◌<◌, ◌≡◌, refl, Bool, false, if◌then◌else◌, arith,
}
use psx.Base.Words.{add32, sub32, bit}
use psx.Cpu.State.{◌>>=◌, Excode, excode_number, Machine, Env}
use psx.Cpu.Exceptions.{
  push_mode, pop_mode, exception, exception_cop0, cop0_exception, coprocessor_unusable,
  general_vector, of_bool, set_cop_number,
}
use psx.Cpu.Opcode.{Opcode, InstructionSubtype, decode}
use psx.Cpu.Coprocessor.{cop_cmd}
use psx.Cpu.Interpret.{handler, interpret}
use psx.Cpu.Step.{
  check_alignment, poll_interrupts, step_instruction, run_fetched, end_in_sequence,
  update_load_delay, update_reg_writeback, finish, execute, fetch, reset_zero,
}

-- Entering an exception shifts the three pairs of mode bits of `sr` up by one pair, drops the oldest
-- pair, leaves the newest pair 0 (kernel mode, interrupts off) and keeps every bit from 6 on.
pub push_mode_lem : (sr : ℕ) → push_mode sr ≡ sr / 64 * 64 + sr % 16 * 4
unfolding push_mode
push_mode_lem sr = omega arith

-- Returning from an exception shifts the pairs down by one, and keeps the oldest pair in its place.
pub pop_mode_lem : (sr : ℕ) → pop_mode sr ≡ sr / 16 * 16 + sr / 4 % 16
unfolding pop_mode
pop_mode_lem sr = omega arith

-- A return undoes an entry on the four low bits of `sr`, the current and the previous pair.
pub pop_mode-push_mode : (sr : ℕ) → pop_mode (push_mode sr) % 16 ≡ sr % 16
pop_mode-push_mode sr = omega (arith, pop_mode_lem (push_mode sr), push_mode_lem sr)

pub excode_number-lt : (code : Excode) → excode_number code < 13
excode_number-lt code = ground arith

of_bool-lt : (b : Bool) → of_bool b < 2
of_bool-lt b = ground arith

module _ {B G : Type 0} where
  -- The handler's address: the general vector of the boot bit, which the entry does not touch.
  pub pc-exception :
      (code : Excode) (m : Machine B G)
      → (exception code false m).cpu.pc ≡ general_vector (bit 22 m.cpu.cop0.sr)
  unfolding exception exception_cop0 cop0_exception
  pc-exception code m = ground (arith, push_mode_lem m.cpu.cop0.sr)

  -- The state in which the handler of an exception starts, whatever the exception: the counter is at
  -- the general vector; the mode is the kernel's, in `sr` and in `curr_mode`, and interrupts are off;
  -- bits 2 to 6 of `cause` hold the number of the exception and bit 31 tells whether the instruction
  -- stood in a delay slot; `epc` holds its address, or there that of the branch before it.
  pub exception_entry :
      (code : Excode) (m : Machine B G)
      → let m' = exception code false m in
        (m'.cpu.pc ≡ general_vector (bit 22 m.cpu.cop0.sr))
        × (m'.cpu.cop0.sr % 4 ≡ 0)
        × (m'.status.curr_mode ≡ 0)
        × (m'.cpu.cop0.cause / 4 % 32 ≡ excode_number code)
        × (bit 31 m'.cpu.cop0.cause ≡ of_bool m.status.branch_delay)
        × (m'.cpu.cop0.epc ≡ (if m.status.branch_delay then sub32 m.cpu.pc 4 else m.cpu.pc))
  unfolding exception exception_cop0 cop0_exception
  exception_entry code m = (
    pc-exception code m,
    omega (arith, push_mode_lem m.cpu.cop0.sr),
    omega (arith, push_mode_lem m.cpu.cop0.sr),
    omega (arith, excode_number-lt code, of_bool-lt m.status.branch_delay),
    omega (arith, excode_number-lt code, of_bool-lt m.status.branch_delay),
    refl,
  )

module _ (env : Env) where
  open env use {Bus, Gte}

  -- An instruction for coprocessor 1 or 3, or for coprocessor 2 while that is not enabled.
  pub data IsUnusable (sr : ℕ) : Opcode → ℕ → Type 0 where
    first : IsUnusable sr Opcode.cop1 1
    second : bit 30 sr ≡ 0 → IsUnusable sr Opcode.cop2 2
    third : IsUnusable sr Opcode.cop3 3

  cop_cmd_unusable :
      (op : Opcode) (n i : ℕ) (m : Machine Bus Gte)
      → IsUnusable m.cpu.cop0.sr op n
      → cop_cmd env op i m ≡ some (coprocessor_unusable n m)
  unfolding cop_cmd
  cop_cmd_unusable _ _ i m IsUnusable.first = refl
  cop_cmd_unusable _ _ i m (IsUnusable.second h) = ground (arith, h)
  cop_cmd_unusable _ _ i m IsUnusable.third = refl

  handler_unusable :
      (op : Opcode) (n i : ℕ) (m : Machine Bus Gte)
      → IsUnusable m.cpu.cop0.sr op n
      → handler env InstructionSubtype.cop_cmd op i m ≡ some (coprocessor_unusable n m)
  unfolding handler
  handler_unusable _ _ i m IsUnusable.first = cop_cmd_unusable Opcode.cop1 1 i m IsUnusable.first
  handler_unusable _ _ i m (IsUnusable.second h) =
      cop_cmd_unusable Opcode.cop2 2 i m (IsUnusable.second h)
  handler_unusable _ _ i m IsUnusable.third = cop_cmd_unusable Opcode.cop3 3 i m IsUnusable.third

  finish_unusable :
      (in_bd : Bool) (n : ℕ) (m : Machine Bus Gte) (b : Bus)
      → m.status.exception ≡ false
      → (t : Machine Bus Gte) × (finish env in_bd false
            (record (coprocessor_unusable n m) { bus = b })
          ≡ some t)
        × (t.cpu.pc ≡ add32 (general_vector (bit 22 m.cpu.cop0.sr)) 4)
  unfolding finish end_in_sequence update_load_delay update_reg_writeback coprocessor_unusable
      exception
  finish_unusable in_bd n m b calm = (
    end_in_sequence env in_bd (record (coprocessor_unusable n m) { bus = b }),
    ground (arith, calm),
    ap (λ pc. add32 pc 4)
        (pc-exception Excode.cou (record m {
          cpu = record (m.cpu) {
            cop0 = record (m.cpu.cop0) { cause = set_cop_number n m.cpu.cop0.cause };
          };
        })),
  )

  interpret_unusable :
      (n i : ℕ) (m : Machine Bus Gte)
      → (decode i).subtype ≡ InstructionSubtype.cop_cmd
      → IsUnusable m.cpu.cop0.sr ((decode i).opcode) n
      → interpret env i m ≡ some (coprocessor_unusable n m)
  unfolding interpret
  interpret_unusable n i m kind unusable =
      ap (λ k. handler env k ((decode i).opcode) i m) kind
      ∙ handler_unusable ((decode i).opcode) n i m unusable

  run_fetched_unusable :
      (n i : ℕ) (m : Machine Bus Gte)
      → m.status.exception ≡ false
      → (decode i).subtype ≡ InstructionSubtype.cop_cmd
      → IsUnusable m.cpu.cop0.sr ((decode i).opcode) n
      → run_fetched env (i, m) ≡ some (coprocessor_unusable n m)
  run_fetched_unusable n i m calm kind unusable =
      ap (λ (b : Bool). if b then some m else interpret env i m) calm
      ∙ interpret_unusable n i m kind unusable

  execute_unusable :
      (n i : ℕ) (m fetched t : Machine Bus Gte)
      → fetch env m ≡ some (i, fetched)
      → run_fetched env (i, fetched) ≡ some (coprocessor_unusable n fetched)
      → m.status.branch_taken ≡ false
      → finish env m.status.branch_delay false
          (record (coprocessor_unusable n fetched) { bus = env.add_cycles 1 fetched.bus })
        ≡ some t
      → execute env m ≡ some (reset_zero env t)
  unfolding execute coprocessor_unusable finish exception
  execute_unusable n i m fetched t f runs straight ends =
      let rest : Machine Bus Gte → Option (Machine Bus Gte) = λ m'.
        finish env m.status.branch_delay m.status.branch_taken
          (record m' { bus = env.add_cycles 1 m'.bus })
        >>= λ u. some (reset_zero env u) in
      let last : Machine Bus Gte = record (coprocessor_unusable n fetched) {
        bus = env.add_cycles 1 (coprocessor_unusable n fetched).bus;
      } in
      ap (λ o. o >>= λ r. run_fetched env r >>= rest) f
      ∙ ap (λ o. o >>= rest) runs
      ∙ ap (λ b. finish env m.status.branch_delay b last >>= λ u. some (reset_zero env u)) straight
      ∙ ap (λ o. o >>= λ u. some (reset_zero env u)) ends

  -- A coprocessor that is not usable is an exception taken at once, and not raised for the end of the step. An
  -- instruction, fetched without a fault and not in the delay slot of a taken branch, after the test of the program
  -- counter and of the interrupts, is for coprocessor 1 or 3, or for coprocessor 2 while that is not enabled. Then
  -- the step goes on in sequence: it ends, and the next instruction is the one behind the handler's first, at the
  -- general vector plus 4.
  pub coprocessor_unusable_skips :
      (n i : ℕ) (m ready fetched : Machine Bus Gte)
      → poll_interrupts env (check_alignment m) ≡ some ready
      → fetch env ready ≡ some (i, fetched)
      → fetched.status.exception ≡ false
      → ready.status.branch_taken ≡ false
      → (decode i).subtype ≡ InstructionSubtype.cop_cmd
      → IsUnusable fetched.cpu.cop0.sr ((decode i).opcode) n
      → (t : Machine Bus Gte) × (step_instruction env m ≡ some t)
        × (t.cpu.pc ≡ add32 (general_vector (bit 22 fetched.cpu.cop0.sr)) 4)
  unfolding step_instruction reset_zero
  coprocessor_unusable_skips n i m ready fetched polled f calm straight kind unusable =
      let (t, ends, pc) =
        finish_unusable ready.status.branch_delay n fetched (env.add_cycles 1 fetched.bus) calm in
      let runs = run_fetched_unusable n i fetched calm kind unusable in
      (
        reset_zero env t,
        ap (λ o. o >>= execute env) polled
            ∙ execute_unusable n i ready fetched t f runs straight ends,
        pc,
      )
