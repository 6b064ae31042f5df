-- ===== src/Cpu/Tests.antt =====
-- Runs of the interpreter on a small machine, and the theorems at concrete inputs.
use psx.Base.{
  ℕ, ◌/◌, ◌%◌, ◌≡◌, refl, inl, inr, Bool, false, Option, none, some, [], ◌∷◌, arith, ◌==◌,
  if◌then◌else◌,
}
use psx.Base.Words.{bit, signed32}
use psx.Base.Int.{◌+ℤ◌}
use psx.Cpu.Samples.{plain_status}
use psx.Cpu.State.{Excode, Cop0, SyscallFrame, Machine, Env, add_writeback}
use psx.Cpu.Opcode.{decode}
use psx.Cpu.Alu.{add_overflow, alu_immediate}
use psx.Cpu.Memory.{lwl_merge, lwr_merge, finish_load}
use psx.Cpu.Exceptions.{exception, exit_exception}
use psx.Cpu.Interpret.{interpret, handler}
use psx.Cpu.Step.{
  step_instruction, poll_interrupts, check_alignment, check_interrupts, execute, fetch, read_word,
  finish, end_in_sequence, update_load_delay, update_reg_writeback, reset_zero, unwind,
}
use psx.Cpu.Modes.{exception_entry, coprocessor_unusable_skips, IsUnusable}
use psx.Cpu.Unaligned.{unaligned_load}
use psx.Cpu.Overflow.{add_overflow_lem, out_of_range}
use psx.Cpu.Pipeline.{zero-step_instruction, load_delay, exit_exception-exception}
use psx.Cpu.Frames.{unwind_total, HasFake, IsUnwound}

-- A bus over a memory of words that has no devices, with no geometry engine and no hooks.
abbrev plain_env : Env
plain_env = record {
  Bus = ℕ → ℕ;
  Gte = Unit {0};
  read = λ w e c a s b. some (b (a / 4), s, b);
  write = λ w e c a v s b. some (s, λ k. if k == a / 4 then v else b k);
  cache_enabled = λ b. false;
  add_cycles = λ n b. b;
  gte_read_data = λ r s g b. (0, g, b);
  gte_write_data = λ v r g. g;
  gte_read_control = λ r s g b. (0, g, b);
  gte_write_control = λ v r g. g;
  gte_cmd = λ c s g b. (g, b);
  undefined_instruction = λ i m. some (false, m);
  hle_handler = λ a b m. some (false, m);
}

abbrev plain_cop0 : Cop0
plain_cop0 = record {
  bpc = 0;
  bda = 0;
  jumpdest = 0;
  dcic = 0;
  badvaddr = 0;
  bdam = 0;
  bpcm = 0;
  sr = 0x0040_0001;
  cause = 0;
  epc = 0;
  prid = 2;
}

abbrev fake_frame : SyscallFrame
fake_frame = record { exitpoint = 0xffff_ffff; syscall_id = 0xffff_ffff; caller = 0xffff_ffff }

abbrev call_frame : SyscallFrame
call_frame = record { exitpoint = 0x1234; syscall_id = 0xa3f; caller = 0x100 }

-- Register 5 holds 7. The memory holds addiu r5, r0, 9 everywhere.
abbrev start : Machine (ℕ → ℕ) (Unit {0})
start = record {
  status = plain_status;
  cpu = record {
    regs = λ k. if k == 5 then 7 else 0;
    pc = 0x100;
    hi = 0;
    lo = 0;
    cop0 = plain_cop0;
    frames = call_frame ∷ fake_frame ∷ [];
    rerun_gte = false;
  };
  gte = tt;
  bus = λ k. 0x2405_0009;
}

abbrev or_start : Option (Machine (ℕ → ℕ) (Unit {0})) → Machine (ℕ → ℕ) (Unit {0})
or_start none = start
or_start (some m) = m

-- The machine after one step, with the value 9 in register 5 and the counter 4 on.
stepped : Machine (ℕ → ℕ) (Unit {0})
unfolding step_instruction poll_interrupts check_alignment check_interrupts execute fetch read_word
    interpret handler decode alu_immediate add_writeback finish end_in_sequence update_load_delay
    update_reg_writeback reset_zero
stepped = or_start (step_instruction plain_env start)

stepped_lem : (stepped.cpu.regs 5 ≡ 9) × (stepped.cpu.pc ≡ 0x104) × (stepped.cpu.regs 6 ≡ 0)
unfolding stepped
stepped_lem = (refl, refl, refl)

step-stepped : step_instruction plain_env start ≡ some stepped
unfolding stepped
step-stepped = refl

zero-step_instruction_example : stepped.cpu.regs 0 ≡ 0
zero-step_instruction_example = zero-step_instruction plain_env start stepped step-stepped

load_delay_example :
    let next = end_in_sequence plain_env false (finish_load plain_env 5 42 start) in
    (next.cpu.regs 5 ≡ 7)
    × ((end_in_sequence plain_env false next).cpu.regs 5 ≡ 42)
    × ((end_in_sequence plain_env false (add_writeback 3 5 next)).cpu.regs 5 ≡ 3)
load_delay_example =
    load_delay plain_env 5 42 3 false false start refl (omega arith) (omega arith) refl

exit_exception-exception_example :
    let m' = exit_exception (exception Excode.syscall false start) in
    (m'.cpu.cop0.sr % 16 ≡ 1) × (m'.status.curr_mode ≡ 0)
exit_exception-exception_example = exit_exception-exception Excode.syscall start refl

exception_entry_example :
    let m' = exception Excode.syscall false start in
    (m'.cpu.pc ≡ 0xbfc0_0180)
    × (m'.cpu.cop0.sr % 4 ≡ 0)
    × (m'.status.curr_mode ≡ 0)
    × (m'.cpu.cop0.cause / 4 % 32 ≡ 8)
    × (bit 31 m'.cpu.cop0.cause ≡ 0)
    × (m'.cpu.cop0.epc ≡ 0x100)
exception_entry_example = exception_entry Excode.syscall start

-- A memory that holds cop1 everywhere.
abbrev cop1_memory : ℕ → ℕ
cop1_memory a = 0x4400_0000

abbrev cop1_start : Machine (ℕ → ℕ) (Unit {0})
cop1_start = record start { bus = cop1_memory }

coprocessor_unusable_skips_example :
    (t : Machine (ℕ → ℕ) (Unit {0})) × (step_instruction plain_env cop1_start ≡ some t)
    × (t.cpu.pc ≡ 0xbfc0_0184)
unfolding poll_interrupts check_alignment check_interrupts fetch read_word decode
coprocessor_unusable_skips_example =
    coprocessor_unusable_skips plain_env 1 0x4400_0000 cop1_start cop1_start cop1_start refl refl
      refl refl refl IsUnusable.first

unaligned_load_example : lwl_merge 0 (lwr_merge 1 0xffff_ffff 0x4433_2211) 0x8877_6655 ≡ 0x5544_3322
unaligned_load_example =
    unaligned_load 1 0xffff_ffff 0x4433_2211 0x8877_6655 (omega arith) (omega arith) (omega arith)
      (omega arith) (omega arith)

add_overflow_lem_example :
    add_overflow 0x7fff_ffff 1 ≡ out_of_range (signed32 0x7fff_ffff +ℤ signed32 1)
add_overflow_lem_example = add_overflow_lem 0x7fff_ffff 1 (omega arith) (omega arith)

plain_hooks_end :
    (id : ℕ) (b : Bool) (m : Machine (ℕ → ℕ) (Unit {0}))
    → (r : Bool × Machine (ℕ → ℕ) (Unit {0})) × (plain_env.hle_handler id b m ≡ some r)
plain_hooks_end id b m = ((false, m), refl)

unwind_total_example :
    (m' : Machine (ℕ → ℕ) (Unit {0})) × (unwind plain_env 0x1234
        (call_frame ∷ fake_frame ∷ [])
        start
      ≡ some m')
    × HasFake m'.cpu.frames
    × IsUnwound 0x1234 m'.cpu.frames
unwind_total_example =
    unwind_total plain_env plain_hooks_end 0x1234 (call_frame ∷ fake_frame ∷ []) start (omega arith)
      (inr (inl refl))
