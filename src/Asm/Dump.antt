-- ===== src/Asm/Dump.antt =====
-- `dump_instruction`, `dump_instructions` and `assemble` of assembler/include/assembler.hh, with the
-- table `isa` of assembler/include/isa.hh.
pub mod Accepted
pub mod Length
pub mod Split
use anc.Disasm.{accepts}
use anc.Isa.Valid.{valid}
use anc.Isa.Opcode.{of_code}
use anc.Isa.Encoding.{decode}
use anc.Asm.Encode.{
  build_addressing_mode, get_arguments, low_bits, word_s, byte_s, byte_bytes, word_bytes, value_at,
}
use anc.Disasm.Text.{name_of}
use anc.Asm.Eval.{
  Evaluated, Stoi, evaluated, Place, eval_expression, and_value, report, is_identifier,
}
use anc.Base.{
  ℕ, zero, suc, ◌+◌, ◌-◌, ◌/◌, ◌%◌, Bool, true, false, not, ◌&&◌, ◌||◌, Option, none, some, List,
  [], ◌∷◌, ◌++◌, ltb, ◌==◌, if◌then◌else◌, codes, same_text, length, take, ℤ, ◌-ℤ◌, out_of_range,
}
use anc.Base.Int.{pos}
use anc.Asm.Tree.{
  nil, cons, node, Ast, Token, TokenType, Environment, Instruction, token_of, AddressingMode,
  AsmError, text_of, RuleName,
}

-- The first operation with that name.
unfoldable pub op_named : ℕ → ℕ → List ℕ → Option ℕ
unfolding name_of same_text
op_named zero from text = none
op_named (suc count) from text =
    let rest = op_named count (from + 1) text in
    if same_text (name_of from) text then some from else rest

unfoldable pub isa_entry : List ℕ → Option ℕ
unfolding op_named
isa_entry text =
    if same_text text (codes "jz")
    then op_named 256 0 (codes "jeq")
    else if same_text text (codes "jnz")
    then op_named 256 0 (codes "jne")
    else op_named 256 0 text

-- `isa[text].first`: one that is not in the table gets 0.
unfoldable pub isa_code : List ℕ → ℕ
unfolding isa_entry
isa_code text = elim (isa_entry text) [ none ↦ 0 | some c ↦ c ]

-- `std::to_string`; a number of 64 bits has at most 20 digits.
abbrev pub decimal_digits : ℕ → ℕ → List ℕ
decimal_digits zero n = []
decimal_digits (suc fuel) n =
    let high = decimal_digits fuel (n / 10) in
    let low = (48 + n % 10) ∷ [] in if ltb n 10 then low else high ++ low

abbrev pub number_node : ℕ → Ast
number_node n =
    node RuleName.none_rule
      (record { value = decimal_digits 20 n; type = TokenType.number_literal; module_name = [] })
      nil

-- The identifier that a tree is, alone or below nodes of one child.
abbrev no_token : Token
no_token = record { value = []; type = TokenType.end; module_name = [] }

unfoldable pub id_of : Ast → Option Token
id_of (node rule t nil) = if is_identifier t.type then some t else none
id_of (node rule t (cons x nil)) =
    let below = id_of x in if is_identifier t.type then some t else below
id_of (node rule t (cons x (cons y rest))) = if is_identifier t.type then some t else none

abbrev pub is_register : Option Ast → Bool
is_register none = false
is_register (some (node rule t children)) = elim t.type [ TokenType.register ↦ true | _ ↦ false ]

abbrev pub is_data : List ℕ → Bool
is_data text =
    same_text text (codes "reserve")
    || (same_text text (codes "string") || same_text text (codes "expression"))

abbrev starts_with_j : List ℕ → Bool
starts_with_j [] = false
starts_with_j (c ∷ cs) = c == 106

abbrev pub is_jump : List ℕ → Bool
is_jump text = starts_with_j text || same_text text (codes "call")

abbrev pub zero_bytes : ℕ → List ℕ
zero_bytes zero = []
zero_bytes (suc n) = 0 ∷ zero_bytes n

-- The text between the quotes; `substr` throws on an empty text.
abbrev pub unquoted : List ℕ → Evaluated (List ℕ)
unquoted [] = none
unquoted (c ∷ cs) = evaluated (take (length cs - 1) cs)

abbrev pub is_immediate : AddressingMode → Bool
is_immediate AddressingMode.immediate_byte = true
is_immediate AddressingMode.immediate_word = true
is_immediate _ = false

abbrev pub is_relative_to_pc : AddressingMode → Bool
is_relative_to_pc AddressingMode.memory_relative_to_pc = true
is_relative_to_pc _ = false

-- Nothing is emitted that the processor would not accept.
unfoldable pub emit : ℕ → ℕ → Token → List ℕ → Evaluated (List ℕ)
unfolding decode of_code valid
emit addr opc token args =
    if not (accepts (of_code opc) (decode addr)) || not (length args == (decode addr).size)
    then report (AsmError.invalid_operand token) []
    else evaluated (addr ∷ opc ∷ args)

unfoldable pub emit_built : Option ℕ → ℕ → Token → List ℕ → Evaluated (List ℕ)
unfolding emit
emit_built none opc token args = none
emit_built (some addr) opc token args = emit addr opc token args

abbrev pub index_token : Option Ast → Token
index_token none = no_token
index_token (some a) = token_of a

abbrev pub size_of : Instruction → ℕ
size_of ins = if is_data ins.instruction then ins.addr_mode_size else ins.addr_mode_size + word_s

abbrev pub id_in : Option Ast → Option Token
id_in none = none
id_in (some a) = id_of a

abbrev pub text_or_empty : Option Ast → List ℕ
text_or_empty none = []
text_or_empty (some a) = text_of a

module _ (stoi : Stoi) (env : Environment) where
  abbrev pub dump_data : Place → Instruction → Evaluated (List ℕ)
  dump_data here ins =
      if same_text ins.instruction (codes "reserve")
      then evaluated (zero_bytes ins.addr_mode_size)
      else if same_text ins.instruction (codes "expression")
      then and_value (value_at stoi env here ins.op1)
          (λ z. evaluated (if ins.addr_mode_size == byte_s then byte_bytes z else word_bytes z))
      else unquoted (text_or_empty ins.op1)

  -- The distance to a label, checked, in place of the label.
  abbrev pub with_distance : Place → Instruction → Token → ℤ → Evaluated Instruction
  with_distance here ins id distance =
      let short = record ins { op1 = some (number_node (low_bits 256 distance)) } in
      if out_of_range 1 distance
      then report (AsmError.exceeds_signed_byte id) short
      else evaluated short

  abbrev pub to_target : Place → Instruction → Option Token → ℤ → Evaluated Instruction
  to_target here ins none address = evaluated ins
  to_target here ins (some id) address =
      with_distance here ins id (address -ℤ pos here.address -ℤ pos 3)

  abbrev pub jump_mode : Place → Instruction → Evaluated Instruction
  jump_mode here ins =
      if is_immediate ins.addressing_mode
      then evaluated (record ins { addressing_mode = AddressingMode.memory_absolute })
      else if is_relative_to_pc ins.addressing_mode
      then and_value (value_at stoi env here ins.op1) (λ z. to_target here ins (id_in ins.op1) z)
      else evaluated ins

  abbrev pub for_jump : Place → Instruction → Evaluated Instruction
  for_jump here ins = if is_jump ins.instruction then jump_mode here ins else evaluated ins

  unfoldable pub dump_operation : Place → Instruction → Evaluated (List ℕ)
  unfolding emit_built build_addressing_mode get_arguments isa_code
  dump_operation here ins =
      if is_register ins.index && ins.minus
      then report (AsmError.register_subtraction (index_token ins.index)) []
      else and_value (get_arguments stoi env here ins) (λ args.
        emit_built (build_addressing_mode ins) (isa_code ins.instruction) (index_token ins.op1)
          args)

  unfoldable pub dump_instruction : Place → Instruction → Evaluated (List ℕ)
  unfolding dump_operation same_text eval_expression id_of
  dump_instruction here ins =
      if is_data ins.instruction
      then dump_data here ins
      else and_value (for_jump here ins) (λ jump. dump_operation here jump)

  -- From the address on.
  unfoldable pub dump_instructions : ℕ → List Instruction → Evaluated (List ℕ)
  unfolding dump_instruction
  dump_instructions address [] = evaluated []
  dump_instructions address (ins ∷ rest) =
      and_value (dump_instruction (record { address = address; active_label = ins.label }) ins)
        (λ xs.
          and_value (dump_instructions (address + size_of ins) rest) (λ ys. evaluated (xs ++ ys)))

  unfoldable pub assemble : Evaluated (List ℕ)
  unfolding dump_instructions
  assemble = dump_instructions 0 env.instructions
