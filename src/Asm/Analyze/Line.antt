-- ===== src/Asm/Analyze/Line.antt =====
-- `analyze_instruction` and `analyze_origin` of assembler/include/analyzer.hh.
use anc.Isa.Valid.{has}
use anc.Asm.Size.{eval_constant}
use anc.Asm.Encode.{char_at, word_s}
use anc.Asm.Dump.{isa_entry, is_jump, is_immediate}
use anc.Asm.Modes.Operand.{blank}
use anc.Asm.Modes.{get_instruction}
use anc.Isa.Opcode.{Family, Op, of_code, families}
use anc.Asm.Eval.{Stoi}
use anc.Base.{
  ℕ, ◌+◌, ◌-◌, Bool, true, false, not, ◌&&◌, Option, none, some, List, ltb, ◌==◌, if◌then◌else◌,
  codes, same_text,
}
use anc.Asm.Tree.{
  nil, cons, AddressingMode, AsmError, Ast, Instruction, Token, Asts, text_of, token_of,
}
use anc.Asm.Analyze.State.{
  Analysis, advance_by, as_size, complain, noting, push_instruction, scope_of,
}

abbrev pub family_bit : AddressingMode → Family
family_bit AddressingMode.implied_mode = Family.implied
family_bit AddressingMode.immediate_byte = Family.immediate
family_bit AddressingMode.immediate_word = Family.immediate
family_bit AddressingMode.register_access_mode = Family.register_access
family_bit AddressingMode.register_to_register_mode = Family.register_to_register
family_bit AddressingMode.memory_absolute = Family.memory_related
family_bit AddressingMode.memory_absolute_indexed = Family.memory_related
family_bit AddressingMode.memory_relative_to_pc = Family.memory_related
family_bit AddressingMode.memory_relative_to_pc_with_register = Family.memory_related
family_bit AddressingMode.memory_relative_to_bp_with_register = Family.memory_related
family_bit AddressingMode.memory_relative_to_bp = Family.memory_related
family_bit AddressingMode.memory_indirect = Family.indirect
family_bit AddressingMode.memory_indirect_indexed = Family.indirect
family_bit AddressingMode.immediate_to_memory_absolute = Family.immediate_to_memory
family_bit AddressingMode.immediate_to_memory_absolute_indexed = Family.immediate_to_memory
family_bit AddressingMode.immediate_to_memory_relative_to_bp = Family.immediate_to_memory
family_bit AddressingMode.immediate_to_memory_relative_to_bp_with_register =
    Family.immediate_to_memory
family_bit AddressingMode.register_to_memory_absolute = Family.register_to_memory
family_bit AddressingMode.register_to_memory_relative_to_pc = Family.register_to_memory
family_bit AddressingMode.register_to_memory_relative_to_bp = Family.register_to_memory
family_bit AddressingMode.low_register_to_memory_absolute = Family.register_to_memory
family_bit AddressingMode.low_register_to_memory_relative_to_pc = Family.register_to_memory
family_bit AddressingMode.low_register_to_memory_relative_to_bp = Family.register_to_memory
family_bit _ = Family.memory_to_register

abbrev supported_by : Option Op → AddressingMode → Bool
supported_by none mode = false
supported_by (some o) mode = has (family_bit mode) (families o)

-- Whether the mode's family is one of `isa[text].second`.
unfoldable pub supports : List ℕ → AddressingMode → Bool
unfolding isa_entry of_code has families
supports text mode = elim (isa_entry text) [ none ↦ false | some c ↦ supported_by (of_code c) mode ]

abbrev pub is_indexed_store : AddressingMode → Bool
is_indexed_store AddressingMode.immediate_to_memory_absolute_indexed = true
is_indexed_store _ = false

abbrev pub is_register_pair : AddressingMode → Bool
is_register_pair AddressingMode.register_to_register_mode = true
is_register_pair _ = false

-- The size of a jump to an immediate is that of an address.
abbrev pub jump_sized : Instruction → Instruction
jump_sized ins =
    if is_jump ins.instruction && is_immediate ins.addressing_mode
    then record ins { addr_mode_size = word_s }
    else ins

abbrev pub is_full : Option Ast → Bool
is_full a = char_at a 0 == 114

-- `analyze_instruction` from the tests on.
unfoldable pub admit_instruction : Token → Instruction → Analysis → Analysis
unfolding supports same_text
admit_instruction t ins st =
    let sized = jump_sized ins in
    if not (supports ins.instruction ins.addressing_mode)
    then complain (AsmError.unsupported_mode t) st
    else if is_indexed_store ins.addressing_mode && not (sized.addr_mode_size == 3)
    then complain (AsmError.indexed_byte_only t) st
    else if is_register_pair ins.addressing_mode && not (is_full ins.op1 && is_full ins.op2)
    then complain (AsmError.full_registers_only t) st
    else advance_by (sized.addr_mode_size + word_s) (push_instruction sized st)

module _ (stoi : Stoi) where
  unfoldable pub analyze_instruction : Asts → Analysis → Option Analysis
  unfolding get_instruction admit_instruction
  analyze_instruction nil st = none
  analyze_instruction (cons x nil) st = some (
      admit_instruction (token_of x)
        (record (blank AddressingMode.implied_mode 0) { instruction = text_of x }) st)
  analyze_instruction (cons x (cons y rest)) st =
      noting (get_instruction stoi (scope_of st) y) st (λ ins noted.
        some (admit_instruction (token_of x) (record ins { instruction = text_of x }) noted))

  -- The space up to an address.
  abbrev pub reserve : ℕ → Analysis → Analysis
  reserve size st =
      push_instruction
        (record (blank AddressingMode.implied_mode size) { instruction = codes "reserve" }) st

  abbrev pub set_origin : Token → Token → ℕ → Analysis → Analysis
  set_origin org t value st =
      if ltb 65535 value
      then complain (AsmError.origin_exceeds t) st
      else if ltb value st.current_address
      then complain (AsmError.origin_below org) st
      else if ltb 0 (value - st.current_address)
      then record (reserve (value - st.current_address) st) { current_address = value }
      else record st { current_address = value }

  unfoldable pub analyze_origin : Asts → Analysis → Option Analysis
  unfolding eval_constant
  analyze_origin (cons org (cons x rest)) st =
      noting (eval_constant stoi st.current_address x) st
        (λ z noted. some (set_origin (token_of org) (token_of x) (as_size z) noted))
  analyze_origin (cons org nil) st = none
  analyze_origin nil st = none
