-- ===== src/Cpu/Pipeline.antt =====
-- The delayed register writes and the end of an instruction: laws of the functions of Step.
use psx.Base.{ℕ, ◌%◌, ◌<◌, ◌≡◌, refl, ◌≢◌, Bool, false, Option, none, some, arith}
use psx.Base.Words.{bit}
use psx.Cpu.State.{Excode, Machine, Env, invalid_reg, add_load_delay, add_writeback, ◌>>=◌}
use psx.Cpu.Exceptions.{
  exception, exit_exception, cop0_rfe, general_vector, exception_cop0, cop0_exception,
}
use psx.Cpu.Memory.{finish_load}
use psx.Cpu.Modes.{pc-exception, pop_mode-push_mode}
use psx.Cpu.Step.{
  end_in_sequence, end_in_exception, update_load_delay, update_reg_writeback, flush_load_delay,
  leave_branch, step_instruction, execute, reset_zero, finish, fetch, run_fetched, poll_interrupts,
  check_alignment,
}

>>=-eq-some {ℓ κ} :
    {A : Type ℓ} {B : Type κ} (o : Option A) (f : A → Option B) {b : B}
    → (o >>= f) ≡ some b
    → (a : A) × (f a ≡ some b)
>>=-eq-some none f h = cc
>>=-eq-some (some a) f h = (a, h)

module _ (env : Env) where
  open env use {Bus, Gte, hle_handler, add_cycles}

  zero-execute : (m m' : Machine Bus Gte) → execute env m ≡ some m' → m'.cpu.regs 0 ≡ 0
  unfolding execute reset_zero
  zero-execute m m' h =
      let (fetched, h1) = >>=-eq-some (fetch env m) _ h in
      let (ran, h2) = >>=-eq-some (run_fetched env fetched) _ h1 in
      let (done, h3) =
        >>=-eq-some
          (finish env m.status.branch_delay m.status.branch_taken
            (record ran { bus = add_cycles 1 ran.bus }))
          _ h2 in
      ground arith

  -- Register 0 holds 0 after every step that ends, whatever the instruction and the hooks did.
  pub zero-step_instruction :
      (m m' : Machine Bus Gte) → step_instruction env m ≡ some m' → m'.cpu.regs 0 ≡ 0
  unfolding step_instruction
  zero-step_instruction m m' h =
      let (polled, h1) = >>=-eq-some (poll_interrupts env (check_alignment m)) _ h in
      zero-execute polled m' h1

  -- The load delay slot. A load of `v` into register `rt` that raised no exception, with no other write
  -- of the instruction under way: the next instruction still finds the old value in `rt`; the one
  -- after it finds `v`, unless the next one writes `rt`, and then it finds what that wrote.
  pub load_delay :
      (rt v w : ℕ) (b b' : Bool) (m : Machine Bus Gte)
      → m.status.exception ≡ false
      → rt ≢ 0
      → rt < 32
      → m.status.reg_writeback.dest ≡ invalid_reg
      → let next = end_in_sequence env b (finish_load env rt v m) in
        (next.cpu.regs rt ≡ m.cpu.regs rt)
        × ((end_in_sequence env b' next).cpu.regs rt ≡ v)
        × ((end_in_sequence env b' (add_writeback w rt next)).cpu.regs rt ≡ w)
  unfolding end_in_sequence update_load_delay update_reg_writeback add_load_delay add_writeback
  load_delay rt v w b b' m he hz hr hw = ground arith

  -- An instruction that raised an exception leaves nothing under way: no register write, no branch and
  -- no exception is pending, and the counter is at the general vector.
  pub end_in_exception_clean :
      (m : Machine Bus Gte)
      → let m' = end_in_exception env m in
        (m'.status.curr_delay.dest ≡ invalid_reg)
        × (m'.status.next_delay.dest ≡ invalid_reg)
        × (m'.status.reg_writeback.dest ≡ invalid_reg)
        × (m'.status.exception ≡ false)
        × (m'.status.branch_delay ≡ false)
        × (m'.status.branch_taken ≡ false)
        × (m'.cpu.pc ≡ general_vector (bit 22 m.cpu.cop0.sr))
  unfolding end_in_exception flush_load_delay leave_branch exception
  end_in_exception_clean m = (
    refl,
    refl,
    refl,
    refl,
    refl,
    refl,
    pc-exception m.status.exception_number (flush_load_delay m),
  )

module _ {B G : Type 0} where
  -- The return from an exception restores what the entry took away: the four low bits of `sr` (the
  -- current and the previous mode and interrupt enable) and, where it agreed with `sr`, `curr_mode`.
  pub exit_exception-exception :
      (code : Excode) (m : Machine B G)
      → m.status.curr_mode ≡ bit 1 m.cpu.cop0.sr
      → let m' = exit_exception (exception code false m) in
        (m'.cpu.cop0.sr % 16 ≡ m.cpu.cop0.sr % 16) × (m'.status.curr_mode ≡ m.status.curr_mode)
  unfolding exit_exception exception cop0_rfe exception_cop0 cop0_exception
  exit_exception-exception code m h =
      (pop_mode-push_mode m.cpu.cop0.sr, omega (arith, pop_mode-push_mode m.cpu.cop0.sr))
