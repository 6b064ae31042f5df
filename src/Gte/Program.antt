-- ===== src/Gte/Program.antt =====
-- The processor with this geometry engine behind it: the pointer `m_gte` of psxemu/source/psxemu/MIPS1.cpp.
use mathlib.Core.Path.{subst}
use psx.Base.{ℕ, Bool, Option, none, some, ◌≡◌, sym}
use psx.Cpu.State.{Width, Status, Machine, Env, Holds}
use psx.Cpu.Engine.{Keeps}
use psx.Cpu.System.{Rest, run_interpreter, run_interpreter-Kept}
use psx.Gte.State.{Gte, new_gte}
use psx.Gte.Registers.{read_data, read_control, write_data, write_control}
use psx.Gte.Command.{gte_cmd}
use psx.Gte.Mirror.{IsMirrored}
use psx.Gte.Access.{
  write_data-IsMirrored, write_control-IsMirrored, control_value-IsMirrored, new_gte-IsMirrored,
  gte_cmd-IsMirrored,
}

-- What the processor calls besides the geometry engine.
pub record Core : Type 1 where
  pub Bus : Type 0
  pub read : Width → Bool → Bool → ℕ → Status → Bus → Option (ℕ × Status × Bus)
  pub write : Width → Bool → Bool → ℕ → ℕ → Status → Bus → Option (Status × Bus)
  pub cache_enabled : Bus → Bool
  pub add_cycles : ℕ → Bus → Bus
  pub undefined_instruction : ℕ → Machine Bus Gte → Option (Bool × Machine Bus Gte)
  pub hle_handler : ℕ → Bool → Machine Bus Gte → Option (Bool × Machine Bus Gte)

abbrev pub with_gte : Core → Env
with_gte c = record {
  Bus = c.Bus;
  Gte = Gte;
  read = c.read;
  write = c.write;
  cache_enabled = c.cache_enabled;
  add_cycles = c.add_cycles;
  gte_read_data = read_data c.add_cycles;
  gte_write_data = λ value reg g. write_data reg value g;
  gte_read_control = read_control c.add_cycles;
  gte_write_control = λ value reg g. write_control reg value g;
  gte_cmd = gte_cmd c.add_cycles;
  undefined_instruction = c.undefined_instruction;
  hle_handler = c.hle_handler;
}

-- The hooks of the kernel do not change the geometry engine.
pub record LeavesGte (c : Core) : Type 0 where
  pub patches :
      (i : ℕ) (m : Machine c.Bus Gte)
      → Holds (λ (r : Bool × Machine c.Bus Gte). r.1.gte ≡ m.gte) (c.undefined_instruction i m)
  pub handles :
      (id : ℕ) (b : Bool) (m : Machine c.Bus Gte)
      → Holds (λ (r : Bool × Machine c.Bus Gte). r.1.gte ≡ m.gte) (c.hle_handler id b m)

module _ (c : Core) (leaves : LeavesGte c) where
  left_alone :
      (o : Option (Bool × Machine c.Bus Gte)) (g : Gte)
      → Holds (λ (r : Bool × Machine c.Bus Gte). r.1.gte ≡ g) o
      → IsMirrored g
      → Holds (λ (r : Bool × Machine c.Bus Gte). IsMirrored (r.1.gte)) o
  left_alone none g h m = tt
  left_alone (some r) g h m = subst IsMirrored (sym h) m

  with_gte-Keeps : Keeps (with_gte c) IsMirrored
  unfolding read_data read_control
  with_gte-Keeps = record {
    reads_data = λ reg s g b m. m;
    reads_control = λ reg s g b m. control_value-IsMirrored reg g m;
    writes_data = λ value reg g m. write_data-IsMirrored reg value g m;
    writes_control = λ value reg g m. write_control-IsMirrored reg value g m;
    commands = λ cmd s g b m. gte_cmd-IsMirrored c.add_cycles cmd s g b m;
    patches = λ i m h. left_alone (c.undefined_instruction i m) m.gte (leaves.patches i m) h;
    handles = λ id b m h. left_alone (c.hle_handler id b m) m.gte (leaves.handles id b m) h;
  }

  -- In every state that any number of rounds of the emulator's loop, with its instructions, transfers and events,
  -- ends in from the reset of the geometry engine, the registers IRGB and ORGB hold the color of IR1 to IR3, each of
  -- the three divided by 80h and clamped to five bits, where the hooks of the kernel leave the engine alone.
  pub run_interpreter-IsMirrored :
      (rest : Rest (with_gte c)) (n : ℕ) (m : Machine c.Bus Gte)
      → m.gte ≡ new_gte
      → Holds (λ (t : Machine c.Bus Gte). IsMirrored t.gte) (run_interpreter (with_gte c) rest n m)
  run_interpreter-IsMirrored rest n m e =
      run_interpreter-Kept (with_gte c) rest IsMirrored with_gte-Keeps n m
        (subst IsMirrored (sym e) new_gte-IsMirrored)
