-- ===== src/Asm/Modes/Stores.antt =====
-- A register that is stored relative to BP, from `get_bp_relative` of assembler/include/analyzer.hh to
-- `build_addressing_mode` of assembler/include/assembler.hh.
use anc.Base.{ℕ, ◌<◌, ◌≡◌, Bool, false, some}
use anc.Asm.Gives.{Gives}
use anc.Asm.Encode.{build_addressing_mode, byte_s, number_of}
use anc.Asm.Encode.Byte.{Reads}
use anc.Isa.Encoding.{Mode}
use anc.Asm.Modes.Operand.{Scope, is_expression, blank}
use anc.Asm.Eval.{Stoi}
use anc.Asm.Tree.{nil, cons, AddressingMode, Ast, Asts, Instruction}

-- The byte is built, and read as a place relative to BP with this register.
abbrev pub Stores : ℕ → Instruction → Type 0
Stores n ins =
    (byte : ℕ) × (build_addressing_mode ins ≡ some byte) × Reads Mode.reg_bp (some n) byte

abbrev frame_place : Bool → Ast → Instruction
frame_place minus i = record (blank AddressingMode.memory_relative_to_bp byte_s) {
  minus = minus;
  index = some i;
}

-- The operands of a store relative to BP, as the parser leaves them.
abbrev pub store_operands : Ast → Ast → Ast → Ast → Ast → Ast → Asts
store_operands mark bp sign i comma y =
    cons mark (cons bp (cons sign (cons i (cons comma (cons y nil)))))

-- What the analyzer gives for a store of a register.
abbrev register_store : Bool → Ast → Ast → Instruction
register_store minus i y = record (frame_place minus i) {
  addressing_mode = AddressingMode.register_to_memory_relative_to_bp;
  op1 = some y;
}

module _ (stoi : Stoi) (s : Scope) (minus : Bool) (i y : Ast) (h : is_expression y ≡ false)
    (small : number_of (some y) < 8) where
  abbrev IsStored : Instruction → Type 0
  IsStored ins = Stores (number_of (some y)) ins
