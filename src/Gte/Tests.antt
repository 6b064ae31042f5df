-- ===== src/Gte/Tests.antt =====
-- Runs of the geometry engine.
use psx.Gte.Fifo.{Leads, counted, leading_bits}
use psx.Base.{
  ltb, suc, none, [], ◌==◌, false, Option, if◌then◌else◌, some, ℕ, ◌+◌, ◌*◌, ◌^◌, ◌≡◌, ◌≤◌, ◌⊎◌,
  refl, arith,
}
use psx.Cpu.Samples.{plain_status}
use psx.Gte.State.{Gte, new_gte}
use psx.Gte.Registers.{write_lzc, write_data, data_value, countl_zero}
use psx.Gte.Perspective.{unr_divide, nclip}
use psx.Gte.Area.{Exact, TooLarge, TooSmall, area, nclip-area}
use psx.Gte.Divide.{unr_divide_close}
use psx.Gte.Program.{Core, LeavesGte, with_gte, run_interpreter-IsMirrored}
use psx.Cpu.Opcode.{decode}
use psx.Cpu.Interpret.{interpret, handler}
use psx.Cpu.Coprocessor.{cop_cmd, coprocessor2_command}
use psx.Cpu.Step.{
  step_instruction, poll_interrupts, check_alignment, check_interrupts, execute, fetch, read_word,
  finish, end_in_sequence, update_load_delay, update_reg_writeback, reset_zero,
}
use psx.Gte.Registers.{write_irgb}
use psx.Cpu.System.{
  Rest, run_interpreter, interpreter_single_step, transfer_or_step, advance_events,
}
use psx.Cpu.State.{Machine, Holds}
use psx.Gte.Mirror.{IsMirrored}

-- The points (0, 0), (10, 0) and (0, 5).
abbrev triangle : Gte
triangle = write_data 14 (5 * 2 ^ 16) (write_data 13 10 (write_data 12 0 new_gte))

nclip-area_example :
    Exact (area triangle) (nclip triangle)
    ⊎ TooLarge (area triangle) (nclip triangle)
    ⊎ TooSmall (area triangle) (nclip triangle)
unfolding write_data
nclip-area_example = nclip-area triangle refl

unr_divide_close_example :
    (unr_divide 1000 3000 * 3000 ≤ 1000 * 2 ^ 16 + 5 * 3000)
    × (1000 * 2 ^ 16 ≤ (unr_divide 1000 3000 + 7) * 3000)
unr_divide_close_example = unr_divide_close 1000 3000 (omega arith) (omega arith) (omega arith)

leading_bits_of_mask : data_value 31 (write_data 30 0xffff_0000 new_gte) ≡ 16
unfolding data_value write_data write_lzc countl_zero
leading_bits_of_mask = refl

-- A memory that holds mtc2 r5, IRGB everywhere, and hooks that do nothing.
abbrev color_core : Core
color_core = record {
  Bus = ℕ;
  read = λ w e c a s b. some (0x4885_e000, s, b);
  write = λ w e c a v s b. some (s, b);
  cache_enabled = λ b. false;
  add_cycles = ◌+◌;
  undefined_instruction = λ i m. some (false, m);
  hle_handler = λ id b m. some (false, m);
}

color_core-LeavesGte : LeavesGte color_core
color_core-LeavesGte = record { patches = λ i m. refl; handles = λ id b m. refl }

-- Two words to transfer, of which the bus counts the cycles, then the program, with no events.
abbrev color_rest : Rest (with_gte color_core)
color_rest = record {
  has_active_transfer = λ b. ltb b 2;
  advance_transfer = λ s b. some (s, suc b);
  curr_cycles = λ b. b;
  set_curr_cycles = λ n b. b;
  ignore_overflow_cycles = λ b. false;
  clear_ignore_overflow = λ b. b;
  advance = λ n i s b. some (s, b);
  run_sync_callbacks = λ s b. some (s, b);
}

-- Register 5 holds a color, and coprocessor 2 is enabled.
abbrev color_start : Machine ℕ Gte
color_start = record {
  status = plain_status;
  cpu = record {
    regs = λ k. if k == 5 then 0x7c1f else 0;
    pc = 0x100;
    hi = 0;
    lo = 0;
    cop0 = record {
      bpc = 0;
      bda = 0;
      jumpdest = 0;
      dcic = 0;
      badvaddr = 0;
      bdam = 0;
      bpcm = 0;
      sr = 2 ^ 30;
      cause = 0;
      epc = 0;
      prid = 2;
    };
    frames = [];
    rerun_gte = false;
  };
  gte = new_gte;
  bus = 0;
}

abbrev orgb_of : Option (Machine ℕ Gte) → Option ℕ
orgb_of none = none
orgb_of (some m) = some (m.gte.regs 29)

-- The color that two transfers and two of these instructions leave.
color_of_run :
    orgb_of (run_interpreter (with_gte color_core) color_rest 4 color_start) ≡ some 0x7c1f
unfolding run_interpreter interpreter_single_step transfer_or_step advance_events step_instruction
    poll_interrupts check_alignment check_interrupts execute fetch read_word interpret handler
    decode cop_cmd coprocessor2_command write_data write_irgb finish end_in_sequence
    update_load_delay update_reg_writeback reset_zero
color_of_run = refl

run_interpreter-IsMirrored_example :
    Holds
      (λ (m : Machine ℕ Gte). IsMirrored (m.gte))
      (run_interpreter (with_gte color_core) color_rest 4 color_start)
run_interpreter-IsMirrored_example =
    run_interpreter-IsMirrored color_core color_core-LeavesGte color_rest 4 color_start refl

leading_bits_example :
    Leads (counted 0xffff_0000) (data_value 31 (write_data 30 0xffff_0000 new_gte))
leading_bits_example = leading_bits 0xffff_0000 new_gte (omega arith)
