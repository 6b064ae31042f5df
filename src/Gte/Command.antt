-- ===== src/Gte/Command.antt =====
-- The commands: `GTE_CmdEncoding` of psxemu/include/psxemu/GTEStructs.hpp, and `Cmd` of
-- psxemu/source/psxemu/GTE.cpp.
use psx.Base.{ℕ, ◌+◌, ◌/◌, ◌%◌, ◌^◌, Bool, true, false, Option, none, some, ◌==◌, if◌then◌else◌}
use psx.Base.Words.{bit}
use psx.Cpu.State.{Status}
use psx.Gte.State.{Gte, set_word, flags}
use psx.Gte.Registers.{interlock_command}
use psx.Gte.Perspective
use psx.Gte.Color

-- `GTE_Opcode`.
pub data GteOpcode : Type 0 where
  rtps nclip op dpcs intpl mvmva ncds cdp ncdt nccs cc ncs nct sqr dpcl dpct avsz3 avsz4 : GteOpcode
  rtpt gpf gpl ncct : GteOpcode

unfoldable pub gte_opcode : ℕ → Option GteOpcode
gte_opcode cmd =
    let x = cmd % 2 ^ 6 in
    if x == 0x1
    then some GteOpcode.rtps
    else if x == 0x6
    then some GteOpcode.nclip
    else if x == 0xc
    then some GteOpcode.op
    else if x == 0x10
    then some GteOpcode.dpcs
    else if x == 0x11
    then some GteOpcode.intpl
    else if x == 0x12
    then some GteOpcode.mvmva
    else if x == 0x13
    then some GteOpcode.ncds
    else if x == 0x14
    then some GteOpcode.cdp
    else if x == 0x16
    then some GteOpcode.ncdt
    else if x == 0x1b
    then some GteOpcode.nccs
    else if x == 0x1c
    then some GteOpcode.cc
    else if x == 0x1e
    then some GteOpcode.ncs
    else if x == 0x20
    then some GteOpcode.nct
    else if x == 0x28
    then some GteOpcode.sqr
    else if x == 0x29
    then some GteOpcode.dpcl
    else if x == 0x2a
    then some GteOpcode.dpct
    else if x == 0x2d
    then some GteOpcode.avsz3
    else if x == 0x2e
    then some GteOpcode.avsz4
    else if x == 0x30
    then some GteOpcode.rtpt
    else if x == 0x3d
    then some GteOpcode.gpf
    else if x == 0x3e
    then some GteOpcode.gpl
    else if x == 0x3f
    then some GteOpcode.ncct
    else none

-- `OPCODE_CYCLES`.
unfoldable pub opcode_cycles : Option GteOpcode → ℕ
opcode_cycles none = 0
opcode_cycles (some GteOpcode.rtps) = 15
opcode_cycles (some GteOpcode.nclip) = 8
opcode_cycles (some GteOpcode.op) = 6
opcode_cycles (some GteOpcode.dpcs) = 8
opcode_cycles (some GteOpcode.intpl) = 8
opcode_cycles (some GteOpcode.mvmva) = 8
opcode_cycles (some GteOpcode.ncds) = 19
opcode_cycles (some GteOpcode.cdp) = 13
opcode_cycles (some GteOpcode.ncdt) = 44
opcode_cycles (some GteOpcode.nccs) = 17
opcode_cycles (some GteOpcode.cc) = 11
opcode_cycles (some GteOpcode.ncs) = 14
opcode_cycles (some GteOpcode.nct) = 30
opcode_cycles (some GteOpcode.sqr) = 5
opcode_cycles (some GteOpcode.dpcl) = 8
opcode_cycles (some GteOpcode.dpct) = 17
opcode_cycles (some GteOpcode.avsz3) = 5
opcode_cycles (some GteOpcode.avsz4) = 6
opcode_cycles (some GteOpcode.rtpt) = 23
opcode_cycles (some GteOpcode.gpf) = 5
opcode_cycles (some GteOpcode.gpl) = 5
opcode_cycles (some GteOpcode.ncct) = 39

abbrev pub lm_of : ℕ → Bool
lm_of cmd = bit 10 cmd == 1

abbrev pub sf_of : ℕ → ℕ
sf_of cmd = bit 19 cmd

abbrev pub translation_of : ℕ → ℕ
translation_of cmd = cmd / 2 ^ 13 % 4

abbrev pub vec_of : ℕ → ℕ
vec_of cmd = cmd / 2 ^ 15 % 4

abbrev pub mat_of : ℕ → ℕ
mat_of cmd = cmd / 2 ^ 17 % 4

-- The switch of `Cmd`; a number without a command does nothing.
unfoldable pub run : Option GteOpcode → ℕ → Gte → Gte
run none cmd g = g
run (some GteOpcode.rtps) cmd g = Perspective.rtps 0 true (lm_of cmd) (sf_of cmd) g
run (some GteOpcode.nclip) cmd g = Perspective.nclip g
run (some GteOpcode.op) cmd g = Color.op (lm_of cmd) (sf_of cmd) g
run (some GteOpcode.dpcs) cmd g = Color.dpcs false (lm_of cmd) (sf_of cmd) g
run (some GteOpcode.intpl) cmd g = Color.intpl (lm_of cmd) (sf_of cmd) g
run (some GteOpcode.mvmva) cmd g =
    Color.mvmva (mat_of cmd) (vec_of cmd) (translation_of cmd) (lm_of cmd) (sf_of cmd) g
run (some GteOpcode.ncds) cmd g = Color.ncds 0 (lm_of cmd) (sf_of cmd) g
run (some GteOpcode.cdp) cmd g = Color.cdp (lm_of cmd) (sf_of cmd) g
run (some GteOpcode.ncdt) cmd g = Color.ncdt (lm_of cmd) (sf_of cmd) g
run (some GteOpcode.nccs) cmd g = Color.nccs 0 (lm_of cmd) (sf_of cmd) g
run (some GteOpcode.cc) cmd g = Color.cc (lm_of cmd) (sf_of cmd) g
run (some GteOpcode.ncs) cmd g = Color.ncs 0 (lm_of cmd) (sf_of cmd) g
run (some GteOpcode.nct) cmd g = Color.nct (lm_of cmd) (sf_of cmd) g
run (some GteOpcode.sqr) cmd g = Color.sqr (sf_of cmd) g
run (some GteOpcode.dpcl) cmd g = Color.dpcl (lm_of cmd) (sf_of cmd) g
run (some GteOpcode.dpct) cmd g = Color.dpct (lm_of cmd) (sf_of cmd) g
run (some GteOpcode.avsz3) cmd g = Perspective.avsz3 g
run (some GteOpcode.avsz4) cmd g = Perspective.avsz4 g
run (some GteOpcode.rtpt) cmd g = Perspective.rtpt (lm_of cmd) (sf_of cmd) g
run (some GteOpcode.gpf) cmd g = Color.gpf (lm_of cmd) (sf_of cmd) g
run (some GteOpcode.gpl) cmd g = Color.gpl (lm_of cmd) (sf_of cmd) g
run (some GteOpcode.ncct) cmd g = Color.ncct (lm_of cmd) (sf_of cmd) g

-- `Cmd`: the flags of the last command are cleared first.
unfoldable pub gte_cmd : {Bus : Type 0} → (ℕ → Bus → Bus) → ℕ → Status → Gte → Bus → Gte × Bus
gte_cmd add_cycles cmd s g bus =
    let code = gte_opcode cmd in
    let after = run code cmd (set_word flags 0 g) in
    (
      record after { cmd_interlock = s.now + opcode_cycles code },
      interlock_command add_cycles s g bus,
    )
