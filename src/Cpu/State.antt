-- ===== src/Cpu/State.antt =====
-- The state of the processor: psxemu/include/psxemu/SystemStatus.hpp (`system_status`, `LoadDelay`,
-- `Writeback`), MIPS1.hpp (`MIPS1`) and cop0.hpp (`cop0_registers`, `Excode`).
-- Registers are a function of their index, 32 being the spare slot that takes the writes to nowhere.
use psx.Base.{ℕ, ◌/◌, ◌%◌, ◌^◌, Bool, true, List, Option, none, some, ◌==◌, if◌then◌else◌}

-- Hardware exceptions, in the order of their numbers.
pub data Excode : Type 0 where
  int mod_ tlbl tlbs adel ades ibe dbe syscall bp ri cou ov : Excode

abbrev pub excode_number : Excode → ℕ
excode_number Excode.int = 0
excode_number Excode.mod_ = 1
excode_number Excode.tlbl = 2
excode_number Excode.tlbs = 3
excode_number Excode.adel = 4
excode_number Excode.ades = 5
excode_number Excode.ibe = 6
excode_number Excode.dbe = 7
excode_number Excode.syscall = 8
excode_number Excode.bp = 9
excode_number Excode.ri = 10
excode_number Excode.cou = 11
excode_number Excode.ov = 12

-- A register write that waits: a load's, or that of the instruction at hand.
pub record Pending : Type 0 where
  pub dest : ℕ
  pub value : ℕ

abbrev pub invalid_reg : ℕ
invalid_reg = 32

-- The part of `system_status` that the processor works on. `now` is the scheduler's timestamp.
pub record Status : Type 0 where
  pub branch_delay : Bool
  pub branch_dest : ℕ
  pub branch_taken : Bool
  pub curr_mode : ℕ
  pub badvaddr : ℕ
  pub exception_number : Excode
  pub exception : Bool
  pub curr_delay : Pending
  pub next_delay : Pending
  pub reg_writeback : Pending
  pub interrupt_mask : ℕ
  pub interrupt_request : ℕ
  pub interrupt_line : Bool
  pub hi_lo_ready_timestamp : ℕ
  pub now : ℕ

-- The registers of coprocessor 0 that have a name in the code.
pub record Cop0 : Type 0 where
  pub bpc : ℕ
  pub bda : ℕ
  pub jumpdest : ℕ
  pub dcic : ℕ
  pub badvaddr : ℕ
  pub bdam : ℕ
  pub bpcm : ℕ
  pub sr : ℕ
  pub cause : ℕ
  pub epc : ℕ
  pub prid : ℕ

-- A call of a BIOS function that has not returned.
pub record SyscallFrame : Type 0 where
  pub exitpoint : ℕ
  pub syscall_id : ℕ
  pub caller : ℕ

-- `frames` is the stack of such calls, the top first.
pub record Mips1 : Type 0 where
  pub regs : ℕ → ℕ
  pub pc : ℕ
  pub hi : ℕ
  pub lo : ℕ
  pub cop0 : Cop0
  pub frames : List SyscallFrame
  pub rerun_gte : Bool

-- The processor with the bus and the geometry engine behind it.
pub record Machine (Bus Gte : Type 0) : Type 0 where
  pub status : Status
  pub cpu : Mips1
  pub gte : Gte
  pub bus : Bus

-- The size of a bus access, and its bytes.
pub data Width : Type 0 where
  byte half word : Width

abbrev pub width_bits : Width → ℕ
width_bits byte = 8
width_bits half = 16
width_bits word = 32

-- What the processor calls: `SystemBus::Read` and `Write` at `<Ty, Except, AddCycles>`, `GTE`, and
-- the two hooks of the kernel. `none` is a `__debugbreak`, which ends the run.
pub record Env : Type 1 where
  pub Bus : Type 0
  pub Gte : Type 0
  pub read : Width → Bool → Bool → ℕ → Status → Bus → Option (ℕ × Status × Bus)
  pub write : Width → Bool → Bool → ℕ → ℕ → Status → Bus → Option (Status × Bus)
  pub cache_enabled : Bus → Bool
  pub add_cycles : ℕ → Bus → Bus
  pub gte_read_data : ℕ → Status → Gte → Bus → ℕ × Gte × Bus
  pub gte_write_data : ℕ → ℕ → Gte → Gte
  pub gte_read_control : ℕ → Status → Gte → Bus → ℕ × Gte × Bus
  pub gte_write_control : ℕ → ℕ → Gte → Gte
  pub gte_cmd : ℕ → Status → Gte → Bus → Gte × Bus
  pub undefined_instruction : ℕ → Machine Bus Gte → Option (Bool × Machine Bus Gte)
  pub hle_handler : ℕ → Bool → Machine Bus Gte → Option (Bool × Machine Bus Gte)

-- `none` is a `__debugbreak`.
infixl 5 ◌>>=◌
abbrev pub ◌>>=◌ {ℓ κ} : {A : Type ℓ} {B : Type κ} → Option A → (A → Option B) → Option B
none >>= f = none
some a >>= f = f a

-- What holds of the result wherever there is one.
abbrev pub Holds {ℓ κ} : {A : Type ℓ} → (A → Type κ) → Option A → Type κ
Holds P none = Unit
Holds P (some a) = P a

-- Of the result of a chain, by its last link alone.
pub Holds-last {ℓ κ} :
    {A B : Type ℓ} (Q : B → Type κ) (o : Option A) (f : A → Option B)
    → ((a : A) → Holds Q (f a))
    → Holds Q (o >>= f)
Holds-last Q none f k = tt
Holds-last Q (some a) f k = k a

pub Holds-bind {ℓ κ μ} :
    {A : Type ℓ} {B : Type ℓ} (P : A → Type κ) (Q : B → Type μ) (o : Option A) (f : A → Option B)
    → Holds P o
    → ((a : A) → P a → Holds Q (f a))
    → Holds Q (o >>= f)
Holds-bind P Q none f h k = tt
Holds-bind P Q (some a) f h k = k a h

-- A write to one register.
abbrev pub update : (ℕ → ℕ) → ℕ → ℕ → ℕ → ℕ
update f k v j = if j == k then v else f j

-- The fields of an instruction.
abbrev pub rs_of : ℕ → ℕ
rs_of i = i / 2 ^ 21 % 32

abbrev pub rt_of : ℕ → ℕ
rt_of i = i / 2 ^ 16 % 32

abbrev pub rd_of : ℕ → ℕ
rd_of i = i / 2 ^ 11 % 32

module _ {B G : Type 0} where
  -- `AddLoadDelay`, `AddWriteback` and `Jump`.
  unfoldable pub add_load_delay : ℕ → ℕ → Machine B G → Machine B G
  add_load_delay value dest m = record m {
    status = record (m.status) { next_delay = record { dest = dest; value = value } };
  }

  unfoldable pub add_writeback : ℕ → ℕ → Machine B G → Machine B G
  add_writeback value dest m = record m {
    status = record (m.status) { reg_writeback = record { dest = dest; value = value } };
  }

  unfoldable pub jump : ℕ → Machine B G → Machine B G
  jump dest m = record m { status = record (m.status) { branch_dest = dest; branch_taken = true } }

  -- `status->exception = true; status->exception_number = code`.
  unfoldable pub raise : Excode → Machine B G → Machine B G
  raise code m = record m {
    status = record (m.status) { exception = true; exception_number = code };
  }

  unfoldable pub set_branch_delay : Machine B G → Machine B G
  set_branch_delay m = record m { status = record (m.status) { branch_delay = true } }

  unfoldable pub set_hi_lo : ℕ → ℕ → Machine B G → Machine B G
  set_hi_lo hi lo m = record m { cpu = record (m.cpu) { hi = hi; lo = lo } }
