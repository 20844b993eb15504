-- ===== src/Asm/Encode/Byte.antt =====
-- The addressing byte that `build_addressing_mode` of assembler/include/assembler.hh makes, as
-- `decode` of common/encoding.hh reads it.
use anc.Isa.Valid.{same_mode}
use anc.Asm.Encode.{number_of}
use anc.Isa.Encoding.{Encoding, Mode, decode}
use anc.Asm.Tree.{AddressingMode, Instruction}
use anc.Base.{ℕ, ◌*◌, ◌/◌, ◌%◌, ◌<◌, bit_or, ◌≡◌, Bool, ◌&&◌, Option, none, some, ◌==◌, u8}

-- What the processor is to take each mode for.
abbrev pub wire_mode : AddressingMode → Mode
wire_mode AddressingMode.implied_mode = Mode.implied
wire_mode AddressingMode.immediate_byte = Mode.immediate
wire_mode AddressingMode.immediate_word = Mode.immediate
wire_mode AddressingMode.memory_absolute = Mode.absolute
wire_mode AddressingMode.memory_indirect = Mode.indirect
wire_mode AddressingMode.memory_relative_to_pc = Mode.pc
wire_mode AddressingMode.memory_relative_to_bp = Mode.bp
wire_mode AddressingMode.memory_absolute_indexed = Mode.indexed
wire_mode AddressingMode.memory_indirect_indexed = Mode.indirect_indexed
wire_mode AddressingMode.memory_relative_to_pc_with_register = Mode.pc_reg
wire_mode AddressingMode.memory_relative_to_bp_with_register = Mode.bp_reg
wire_mode AddressingMode.immediate_to_memory_absolute_indexed = Mode.store_indexed
wire_mode AddressingMode.register_to_memory_absolute = Mode.reg_absolute
wire_mode AddressingMode.memory_absolute_to_register = Mode.reg_absolute
wire_mode AddressingMode.immediate_to_register = Mode.reg_immediate
wire_mode AddressingMode.register_to_memory_relative_to_pc = Mode.reg_pc
wire_mode AddressingMode.memory_relative_to_pc_to_register = Mode.reg_pc
wire_mode AddressingMode.register_to_memory_relative_to_bp = Mode.reg_bp
wire_mode AddressingMode.memory_relative_to_bp_to_register = Mode.reg_bp
wire_mode AddressingMode.register_access_mode = Mode.reg
wire_mode AddressingMode.register_to_register_mode = Mode.regs
wire_mode AddressingMode.immediate_to_memory_absolute = Mode.store_absolute
wire_mode AddressingMode.immediate_to_memory_relative_to_bp = Mode.store_bp
wire_mode AddressingMode.immediate_to_memory_relative_to_bp_with_register = Mode.store_bp_reg
wire_mode _ = Mode.implied

-- The register that the byte names, if the mode has one.
abbrev pub wire_register : AddressingMode → Instruction → Option ℕ
wire_register AddressingMode.memory_absolute_indexed ins = some (number_of ins.index)
wire_register AddressingMode.memory_indirect_indexed ins = some (number_of ins.index)
wire_register AddressingMode.memory_relative_to_pc_with_register ins = some (number_of ins.index)
wire_register AddressingMode.memory_relative_to_bp_with_register ins = some (number_of ins.index)
wire_register AddressingMode.immediate_to_memory_absolute_indexed ins = some (number_of ins.index)
wire_register AddressingMode.register_to_memory_absolute ins = some (number_of ins.op2)
wire_register AddressingMode.memory_absolute_to_register ins = some (number_of ins.op1)
wire_register AddressingMode.immediate_to_register ins = some (number_of ins.op1)
wire_register AddressingMode.register_to_memory_relative_to_pc ins = some (number_of ins.op2)
wire_register AddressingMode.memory_relative_to_pc_to_register ins = some (number_of ins.op1)
wire_register AddressingMode.register_to_memory_relative_to_bp ins = some (number_of ins.op1)
wire_register AddressingMode.memory_relative_to_bp_to_register ins = some (number_of ins.op1)
wire_register AddressingMode.register_access_mode ins = some (number_of ins.op1)
wire_register AddressingMode.register_to_register_mode ins = some (number_of ins.op1)
wire_register AddressingMode.immediate_to_memory_relative_to_bp_with_register ins =
    some (number_of ins.index)
wire_register _ ins = none

-- The other register of a pair.
abbrev pub second_register : AddressingMode → Instruction → Option ℕ
second_register AddressingMode.register_to_register_mode ins = some (number_of ins.op2)
second_register _ ins = none

abbrev pub IsNumbered : Option ℕ → Type 0
IsNumbered none = Unit
IsNumbered (some n) = n < 8

-- The registers that the mode has are 0 to 7.
abbrev pub HasRegisters : AddressingMode → Instruction → Type 0
HasRegisters m ins = IsNumbered (wire_register m ins) × IsNumbered (second_register m ins)

abbrev Names : Option ℕ → Encoding → Type 0
Names none e = Unit
Names (some n) e = e.reg ≡ n

-- The byte is read as this mode, with this register.
abbrev pub Reads : Mode → Option ℕ → ℕ → Type 0
Reads mode r byte = ((decode byte).mode ≡ mode) × Names r (decode byte)

-- The bits of a mode with a register in bits 3 to 5.
abbrev Register : ℕ → Mode → Type 0
Register bits mode = (n : ℕ) → n < 8 → Reads mode (some n) (u8 (bit_or bits (n * 8)))

abbrev regs_byte : ℕ → ℕ → ℕ
regs_byte n k = u8 (bit_or (bit_or 0x40 (n * 8)) k)

abbrev regs_law : ℕ → Bool
regs_law i =
    same_mode (decode (regs_byte (i / 8) (i % 8))).mode Mode.regs
    && (decode (regs_byte (i / 8) (i % 8))).reg == i / 8
