-- ===== src/Cpu/Step.antt =====
-- psxemu/source/psxemu/MIPS1.cpp: `StepInstruction` and what it calls.
use psx.Base.{
  ℕ, ◌*◌, ◌/◌, ◌%◌, ◌^◌, Bool, true, false, not, ◌&&◌, ◌||◌, Option, none, some, List, [], ◌∷◌,
  bit_and, bit_or, length, ◌==◌, if◌then◌else◌,
}
use psx.Base.Words.{add32, sub32, bit}
use psx.Cpu.State.{Excode, Pending, SyscallFrame, Machine, Env, word, invalid_reg, update, ◌>>=◌}
use psx.Cpu.Opcode.{Opcode, InstructionSubtype, Entry, decode}
use psx.Cpu.Exceptions.{exception, is_pending}
use psx.Cpu.Interpret.{interpret}

-- Fields of `sr` and `cause` of two bits at bit 8, where software asks for interrupts.
abbrev pub software_bits : ℕ → ℕ
software_bits r = r / 2 ^ 8 % 4

abbrev pub no_pending : Pending → Pending
no_pending p = record p { dest = invalid_reg }

module _ {B G : Type 0} where
  -- `CheckInterrupts`
  unfoldable pub check_interrupts : Machine B G → Bool
  check_interrupts m =
      if bit 0 m.cpu.cop0.sr == 0 || bit 10 m.cpu.cop0.sr == 0
      then false
      else if is_pending m.status
      then true
      else not (bit_and (software_bits m.cpu.cop0.sr) (software_bits m.cpu.cop0.cause) == 0)

  unfoldable pub update_load_delay : Machine B G → Machine B G
  update_load_delay m = record m {
    cpu = record (m.cpu) {
      regs = update m.cpu.regs m.status.curr_delay.dest m.status.curr_delay.value;
    };
    status = record (m.status) {
      curr_delay = m.status.next_delay;
      next_delay = no_pending m.status.next_delay;
    };
  }

  unfoldable pub update_reg_writeback : Machine B G → Machine B G
  update_reg_writeback m = record m {
    cpu = record (m.cpu) {
      regs = update m.cpu.regs m.status.reg_writeback.dest m.status.reg_writeback.value;
    };
    status = record (m.status) { reg_writeback = no_pending m.status.reg_writeback };
  }

  -- Both loads in flight and the write between them, in program order.
  unfoldable pub flush_load_delay : Machine B G → Machine B G
  flush_load_delay m =
      let after_curr : ℕ → ℕ =
        update m.cpu.regs m.status.curr_delay.dest m.status.curr_delay.value in
      let after_writeback : ℕ → ℕ =
        update after_curr m.status.reg_writeback.dest m.status.reg_writeback.value in
      record m {
        cpu = record (m.cpu) {
          regs = update after_writeback m.status.next_delay.dest m.status.next_delay.value;
        };
        status = record (m.status) {
          curr_delay = no_pending m.status.curr_delay;
          reg_writeback = no_pending m.status.reg_writeback;
          next_delay = no_pending m.status.next_delay;
        };
      }

  -- `branch_delay = false; branch_taken = false`
  unfoldable pub leave_branch : Machine B G → Machine B G
  leave_branch m = record m {
    status = record (m.status) { branch_delay = false; branch_taken = false };
  }

  abbrev pub set_pc : ℕ → Machine B G → Machine B G
  set_pc pc m = record m { cpu = record (m.cpu) { pc = pc } }

  abbrev pub set_frames : List SyscallFrame → Machine B G → Machine B G
  set_frames frames m = record m { cpu = record (m.cpu) { frames = frames } }

  -- An address error at a counter that is not a multiple of 4.
  unfoldable pub check_alignment : Machine B G → Machine B G
  check_alignment m = if m.cpu.pc % 4 == 0 then m else leave_branch (exception Excode.adel false m)

abbrev pub max_syscall_frames : ℕ
max_syscall_frames = 64

abbrev pub is_bios_call : ℕ → Bool
is_bios_call address = address == 0xa0 || address == 0xb0 || address == 0xc0

abbrev pub is_cop2_command : Entry → Bool
is_cop2_command e = elim e.subtype [
  | InstructionSubtype.cop_cmd ↦ elim e.opcode [ Opcode.cop2 ↦ true | _ ↦ false ]
  | _ ↦ false
]

module _ (env : Env) where
  open env use {Bus, Gte, hle_handler, add_cycles, cache_enabled}

  -- `bus->Read<u32, except, cycles>`
  unfoldable pub read_word : Bool → Bool → ℕ → Machine Bus Gte → Option (ℕ × Machine Bus Gte)
  read_word except cycles address m = elim (env.read word except cycles address m.status m.bus) [
    | none ↦ none
    | some (v, s, b) ↦ some (v, record m { status = s; bus = b })
  ]

  -- `CheckInstructionGTE`
  unfoldable pub check_instruction_gte : Machine Bus Gte → Option (Bool × Machine Bus Gte)
  check_instruction_gte m = do
    (i, m') ← read_word false false m.cpu.pc m
    some (is_cop2_command (decode i), m')

  unfoldable pub take_interrupt : Machine Bus Gte → Machine Bus Gte
  take_interrupt m =
      let m1 =
        flush_load_delay (record m { status = record (m.status) { interrupt_line = false } }) in
      let m2 = leave_branch (exception Excode.int false m1) in
      record m2 { cpu = record (m2.cpu) { rerun_gte = false } }

  abbrev pub interrupt_or_rerun : Bool × Machine Bus Gte → Option (Machine Bus Gte)
  interrupt_or_rerun (is_gte, m) =
      if not is_gte || m.cpu.rerun_gte
      then some (take_interrupt m)
      else some (record m { cpu = record (m.cpu) { rerun_gte = true } })

  -- An interrupt waits once for a command of the geometry engine.
  unfoldable pub poll_interrupts : Machine Bus Gte → Option (Machine Bus Gte)
  poll_interrupts m =
      if check_interrupts m then check_instruction_gte m >>= interrupt_or_rerun else some m

  abbrev pub has_icache : ℕ → Bool
  has_icache pc = pc / 2 ^ 29 == 0 || pc / 2 ^ 29 == 4

  unfoldable pub fetch : Machine Bus Gte → Option (ℕ × Machine Bus Gte)
  fetch m = read_word true (not (has_icache m.cpu.pc) || not (cache_enabled m.bus)) m.cpu.pc m

  -- The frames that return to the address at hand.
  unfoldable pub unwind : ℕ → List SyscallFrame → Machine Bus Gte → Option (Machine Bus Gte)
  unwind address [] m = none
  unwind address (f ∷ rest) m = elim (f.exitpoint == address) [
    | false ↦ some (set_frames (f ∷ rest) m)
    | true ↦ elim (f.exitpoint == 0xffff_ffff) [
      | true ↦ none
      | false ↦
          hle_handler f.syscall_id false (set_frames rest m) >>= λ (_, m'). unwind address rest m'
    ]
  ]

  abbrev frame_of : ℕ → Machine Bus Gte → SyscallFrame
  frame_of id m = record {
    exitpoint = m.cpu.regs 31 % 2 ^ 29;
    syscall_id = id;
    caller = sub32 m.cpu.pc 4;
  }

  -- The two calls that do not return leave no frame.
  unfoldable pub push_frame : ℕ → Machine Bus Gte → Option (Machine Bus Gte)
  push_frame address m =
      let id = bit_or (address * 2 ^ 4) (m.cpu.regs 9) in
      if length m.cpu.frames == max_syscall_frames
      then none
      else if id == 0xb17 || id == 0xb10
      then some m
      else some (set_frames (frame_of id m ∷ m.cpu.frames) m)

  abbrev enter_call : ℕ → Bool × Machine Bus Gte → Option (Bool × Machine Bus Gte)
  enter_call address (should_enter, m) =
      if should_enter then (push_frame address m >>= λ m'. some (true, m')) else some (false, m)

  -- `HLE_Bios`
  unfoldable pub hle_bios : ℕ → Machine Bus Gte → Option (Bool × Machine Bus Gte)
  hle_bios destination m =
      let address = destination % 2 ^ 29 in
      if is_bios_call address
      then hle_handler address true m >>= enter_call address
      else (unwind address m.cpu.frames m >>= λ m'. some (true, m'))

  -- The three ways in which an instruction ends.
  unfoldable pub end_in_exception : Machine Bus Gte → Machine Bus Gte
  end_in_exception m =
      let m1 = exception m.status.exception_number false (flush_load_delay m) in
      leave_branch (record m1 { status = record (m1.status) { exception = false } })

  abbrev pub after_hle : Bool × Machine Bus Gte → Machine Bus Gte
  after_hle (true, m) = set_pc m.status.branch_dest m
  after_hle (false, m) = set_pc (m.cpu.regs 31) m

  unfoldable pub end_in_jump : Machine Bus Gte → Option (Machine Bus Gte)
  end_in_jump m =
      let m1 = update_reg_writeback (update_load_delay (leave_branch m)) in
      hle_bios m1.status.branch_dest m1 >>= λ r. some (after_hle r)

  unfoldable pub end_in_sequence : Bool → Machine Bus Gte → Machine Bus Gte
  end_in_sequence in_bd m =
      let m1 = update_reg_writeback (update_load_delay m) in
      let m2 = record m1 {
        status = record (m1.status) { branch_delay = not in_bd && m1.status.branch_delay };
      } in
      set_pc (add32 m2.cpu.pc 4) m2

  unfoldable pub finish : Bool → Bool → Machine Bus Gte → Option (Machine Bus Gte)
  finish in_bd branch_taken m =
      if m.status.exception
      then some (end_in_exception m)
      else if branch_taken
      then end_in_jump m
      else some (end_in_sequence in_bd m)

  -- `m_regs.zero = 0`
  unfoldable pub reset_zero : Machine Bus Gte → Machine Bus Gte
  reset_zero m = record m { cpu = record (m.cpu) { regs = update m.cpu.regs 0 0 } }

  abbrev pub run_fetched : ℕ × Machine Bus Gte → Option (Machine Bus Gte)
  run_fetched (i, m) = if m.status.exception then some m else interpret env i m

  unfoldable pub execute : Machine Bus Gte → Option (Machine Bus Gte)
  execute m = do
    fetched ← fetch m
    m' ← run_fetched fetched
    m'' ←
        finish m.status.branch_delay m.status.branch_taken (record m' { bus = add_cycles 1 m'.bus })
    some (reset_zero m'')

  -- `StepInstruction`
  unfoldable pub step_instruction : Machine Bus Gte → Option (Machine Bus Gte)
  step_instruction m = poll_interrupts (check_alignment m) >>= execute
