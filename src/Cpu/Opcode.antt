-- ===== src/Cpu/Opcode.antt =====
-- psxemu/include/psxemu/cpu_instruction.hpp: the names of the instructions, and the table that
-- `GetInstructionLut` fills, from the primary and the secondary field of an instruction.
use psx.Base.{ℕ, ◌/◌, ◌%◌, ◌^◌, List, [], ◌∷◌, ◌==◌, if◌then◌else◌}

pub data Opcode : Type 0 where
  bcondz j jal beq bne blez bgtz : Opcode
  addi addiu slti sltiu andi ori xori lui : Opcode
  cop0 cop1 cop2 cop3 : Opcode
  lb lh lwl lw lbu lhu lwr sb sh swl sw swr : Opcode
  lwc0 lwc1 lwc2 lwc3 swc0 swc1 swc2 swc3 : Opcode
  sll srl sra sllv srlv srav jr jalr syscall break : Opcode
  mfhi mthi mflo mtlo mult multu div divu : Opcode
  add addu sub subu and or xor nor slt sltu na : Opcode

pub data InstructionType : Type 0 where
  reserved load store alu branch coprocessor : InstructionType

pub data InstructionSubtype : Type 0 where
  shift_imm shift_reg jump sys_brk mul_div alu_reg branch alu_imm lui_imm : InstructionSubtype
  load store cop_cmd cop_load cop_store na : InstructionSubtype

pub record Entry : Type 0 where
  pub type : InstructionType
  pub opcode : Opcode
  pub subtype : InstructionSubtype

abbrev pub entry : InstructionType → Opcode → InstructionSubtype → Entry
entry t o s = record { type = t; opcode = o; subtype = s }

abbrev pub invalid_entry : Entry
invalid_entry = entry InstructionType.reserved Opcode.na InstructionSubtype.na

-- The cases of the switch on the secondary field, taken where the primary field is 0.
unfoldable pub special_table : List (ℕ × Entry)
special_table =
    (0x00, entry InstructionType.alu Opcode.sll InstructionSubtype.shift_imm)
    ∷ (0x02, entry InstructionType.alu Opcode.srl InstructionSubtype.shift_imm)
    ∷ (0x03, entry InstructionType.alu Opcode.sra InstructionSubtype.shift_imm)
    ∷ (0x04, entry InstructionType.alu Opcode.sllv InstructionSubtype.shift_reg)
    ∷ (0x06, entry InstructionType.alu Opcode.srlv InstructionSubtype.shift_reg)
    ∷ (0x07, entry InstructionType.alu Opcode.srav InstructionSubtype.shift_reg)
    ∷ (0x08, entry InstructionType.branch Opcode.jr InstructionSubtype.jump)
    ∷ (0x09, entry InstructionType.branch Opcode.jalr InstructionSubtype.jump)
    ∷ (0x0c, entry InstructionType.branch Opcode.syscall InstructionSubtype.sys_brk)
    ∷ (0x0d, entry InstructionType.branch Opcode.break InstructionSubtype.sys_brk)
    ∷ (0x10, entry InstructionType.alu Opcode.mfhi InstructionSubtype.mul_div)
    ∷ (0x11, entry InstructionType.alu Opcode.mthi InstructionSubtype.mul_div)
    ∷ (0x12, entry InstructionType.alu Opcode.mflo InstructionSubtype.mul_div)
    ∷ (0x13, entry InstructionType.alu Opcode.mtlo InstructionSubtype.mul_div)
    ∷ (0x18, entry InstructionType.alu Opcode.mult InstructionSubtype.mul_div)
    ∷ (0x19, entry InstructionType.alu Opcode.multu InstructionSubtype.mul_div)
    ∷ (0x1a, entry InstructionType.alu Opcode.div InstructionSubtype.mul_div)
    ∷ (0x1b, entry InstructionType.alu Opcode.divu InstructionSubtype.mul_div)
    ∷ (0x20, entry InstructionType.alu Opcode.add InstructionSubtype.alu_reg)
    ∷ (0x21, entry InstructionType.alu Opcode.addu InstructionSubtype.alu_reg)
    ∷ (0x22, entry InstructionType.alu Opcode.sub InstructionSubtype.alu_reg)
    ∷ (0x23, entry InstructionType.alu Opcode.subu InstructionSubtype.alu_reg)
    ∷ (0x24, entry InstructionType.alu Opcode.and InstructionSubtype.alu_reg)
    ∷ (0x25, entry InstructionType.alu Opcode.or InstructionSubtype.alu_reg)
    ∷ (0x26, entry InstructionType.alu Opcode.xor InstructionSubtype.alu_reg)
    ∷ (0x27, entry InstructionType.alu Opcode.nor InstructionSubtype.alu_reg)
    ∷ (0x2a, entry InstructionType.alu Opcode.slt InstructionSubtype.alu_reg)
    ∷ (0x2b, entry InstructionType.alu Opcode.sltu InstructionSubtype.alu_reg)
    ∷ []

-- The cases of the switch on the primary field.
unfoldable pub primary_table : List (ℕ × Entry)
primary_table =
    (0x1, entry InstructionType.branch Opcode.bcondz InstructionSubtype.branch)
    ∷ (0x2, entry InstructionType.branch Opcode.j InstructionSubtype.jump)
    ∷ (0x3, entry InstructionType.branch Opcode.jal InstructionSubtype.jump)
    ∷ (0x4, entry InstructionType.branch Opcode.beq InstructionSubtype.branch)
    ∷ (0x5, entry InstructionType.branch Opcode.bne InstructionSubtype.branch)
    ∷ (0x6, entry InstructionType.branch Opcode.blez InstructionSubtype.branch)
    ∷ (0x7, entry InstructionType.branch Opcode.bgtz InstructionSubtype.branch)
    ∷ (0x8, entry InstructionType.alu Opcode.addi InstructionSubtype.alu_imm)
    ∷ (0x9, entry InstructionType.alu Opcode.addiu InstructionSubtype.alu_imm)
    ∷ (0xa, entry InstructionType.alu Opcode.slti InstructionSubtype.alu_imm)
    ∷ (0xb, entry InstructionType.alu Opcode.sltiu InstructionSubtype.alu_imm)
    ∷ (0xc, entry InstructionType.alu Opcode.andi InstructionSubtype.alu_imm)
    ∷ (0xd, entry InstructionType.alu Opcode.ori InstructionSubtype.alu_imm)
    ∷ (0xe, entry InstructionType.alu Opcode.xori InstructionSubtype.alu_imm)
    ∷ (0xf, entry InstructionType.alu Opcode.lui InstructionSubtype.lui_imm)
    ∷ (0x10, entry InstructionType.coprocessor Opcode.cop0 InstructionSubtype.cop_cmd)
    ∷ (0x11, entry InstructionType.coprocessor Opcode.cop1 InstructionSubtype.cop_cmd)
    ∷ (0x12, entry InstructionType.coprocessor Opcode.cop2 InstructionSubtype.cop_cmd)
    ∷ (0x13, entry InstructionType.coprocessor Opcode.cop3 InstructionSubtype.cop_cmd)
    ∷ (0x20, entry InstructionType.load Opcode.lb InstructionSubtype.load)
    ∷ (0x21, entry InstructionType.load Opcode.lh InstructionSubtype.load)
    ∷ (0x22, entry InstructionType.load Opcode.lwl InstructionSubtype.load)
    ∷ (0x23, entry InstructionType.load Opcode.lw InstructionSubtype.load)
    ∷ (0x24, entry InstructionType.load Opcode.lbu InstructionSubtype.load)
    ∷ (0x25, entry InstructionType.load Opcode.lhu InstructionSubtype.load)
    ∷ (0x26, entry InstructionType.load Opcode.lwr InstructionSubtype.load)
    ∷ (0x28, entry InstructionType.store Opcode.sb InstructionSubtype.store)
    ∷ (0x29, entry InstructionType.store Opcode.sh InstructionSubtype.store)
    ∷ (0x2a, entry InstructionType.store Opcode.swl InstructionSubtype.store)
    ∷ (0x2b, entry InstructionType.store Opcode.sw InstructionSubtype.store)
    ∷ (0x2e, entry InstructionType.store Opcode.swr InstructionSubtype.store)
    ∷ (0x30, entry InstructionType.coprocessor Opcode.lwc0 InstructionSubtype.cop_load)
    ∷ (0x31, entry InstructionType.coprocessor Opcode.lwc1 InstructionSubtype.cop_load)
    ∷ (0x32, entry InstructionType.coprocessor Opcode.lwc2 InstructionSubtype.cop_load)
    ∷ (0x33, entry InstructionType.coprocessor Opcode.lwc3 InstructionSubtype.cop_load)
    ∷ (0x38, entry InstructionType.coprocessor Opcode.swc0 InstructionSubtype.cop_store)
    ∷ (0x39, entry InstructionType.coprocessor Opcode.swc1 InstructionSubtype.cop_store)
    ∷ (0x3a, entry InstructionType.coprocessor Opcode.swc2 InstructionSubtype.cop_store)
    ∷ (0x3b, entry InstructionType.coprocessor Opcode.swc3 InstructionSubtype.cop_store)
    ∷ []

unfoldable pub find_entry : ℕ → List (ℕ × Entry) → Entry
find_entry k [] = invalid_entry
find_entry k ((key, e) ∷ rest) = if key == k then e else find_entry k rest

-- `INSTRUCTION_TYPE_LUT[hash]` at the hash of the two fields.
unfoldable pub instruction_lut : ℕ → ℕ → Entry
unfolding special_table primary_table find_entry
instruction_lut primary secondary =
    if primary == 0 then find_entry secondary special_table else find_entry primary primary_table

abbrev pub primary_of : ℕ → ℕ
primary_of i = i / 2 ^ 26 % 64

abbrev pub secondary_of : ℕ → ℕ
secondary_of i = i % 64

unfoldable pub decode : ℕ → Entry
unfolding instruction_lut
decode i = instruction_lut (primary_of i) (secondary_of i)
