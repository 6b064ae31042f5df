-- ===== src/Cpu/Frames.antt =====
-- The stack of BIOS calls: laws of `HLE_Bios` of psxemu/source/psxemu/MIPS1.cpp.
use psx.Base.{
  ℕ, ◌^◌, ◌<◌, ◌≡◌, ◌≢◌, ◌⊎◌, inl, inr, Bool, false, some, List, [], ◌∷◌, arith, ◌==◌, Bool-cases,
}
use psx.Cpu.State.{SyscallFrame, Machine, Env}
use psx.Cpu.Step.{unwind, set_frames}

-- The frame that the constructor pushes, which no address matches, lies in the stack.
abbrev pub HasFake : List SyscallFrame → Type 0
HasFake [] = ⊥
HasFake (f ∷ rest) = (f.exitpoint ≡ 0xffff_ffff) ⊎ HasFake rest

-- The top of the stack does not return to the address.
abbrev pub IsUnwound : ℕ → List SyscallFrame → Type 0
IsUnwound address [] = ⊥
IsUnwound address (f ∷ rest) = f.exitpoint ≢ address

module _ (env : Env) where
  open env use {Bus, Gte, hle_handler}

  -- The frames that return to an address are taken off the stack, and the loop ends: if the hooks end,
  -- it comes to a stack whose top returns elsewhere, with the constructor's frame still in it, so it
  -- never takes a frame from the empty stack nor stops at that frame.
  pub unwind_total :
      (hooks_end : (id : ℕ) (b : Bool) (m : Machine Bus Gte)
        → (r : Bool × Machine Bus Gte) × (hle_handler id b m ≡ some r))
      (address : ℕ) (frames : List SyscallFrame) (m : Machine Bus Gte)
      → address < 2 ^ 29
      → HasFake frames
      → (m' : Machine Bus Gte) × (unwind env address frames m ≡ some m')
        × HasFake m'.cpu.frames
        × IsUnwound address m'.cpu.frames
  unfolding unwind
  unwind_total hooks_end address [] m ha hf = absurd hf
  unwind_total hooks_end address (f ∷ rest) m ha hf = elim (Bool-cases (f.exitpoint == address)) [
    | inr miss ↦ (set_frames (f ∷ rest) m, ground arith, hf, ground arith)
    | inl hit ↦
        let below : HasFake rest = ground arith in
        let (r, e) = hooks_end f.syscall_id false (set_frames rest m) in
        let (m', run, fake, top) = unwind_total hooks_end address rest r.1 ha below in
        (m', ground (arith, e, run), fake, top)
  ]
