-- ===== src/Asm/Tree.antt =====
-- What the last pass reads: `Token`, `AST`, the `Environment` of the analyzer with its instructions,
-- and the errors it reports (assembler/include/types.hh, ast.hh, isa.hh and analyzer.hh).
use anc.Base.{
  ℕ, zero, suc, Bool, true, false, not, ◌||◌, Option, none, some, List, [], ◌∷◌, ◌==◌,
  if◌then◌else◌, same_text,
}

pub data TokenType : Type 0 where
  identifier instruction keyword number_literal string_literal binary_operator : TokenType
  unary_left_operator register type open_square_bracket closed_square_bracket : TokenType
  open_round_bracket closed_round_bracket current_address separator comment whitespace : TokenType
  new_line other end : TokenType

-- Where a token stands in its module matters to messages only.
pub record Token : Type 0 where
  pub value : List ℕ
  pub type : TokenType
  pub module_name : List ℕ

-- `none_rule` is NONE.
pub data RuleName : Type 0 where
  command expression declaration instruction_rule instruction_line addressing_mode : RuleName
  addressing_mode_immediate addressing_mode_relative_bp addressing_mode_relative_array : RuleName
  addressing_mode_relative_pc addressing_mode_absolute addressing_mode_indirect : RuleName
  addressing_mode_memory_to_memory addressing_mode_memory_to_register : RuleName
  addressing_mode_register_to_register addressing_mode_register addressing_mode_memory : RuleName
  addressing_mode_reg_to_bp addressing_mode_mtu_immediate addressing_mode_mtu_absolute : RuleName
  addressing_mode_mtu_relative_pc addressing_mode_mtu_relative_bp : RuleName
  addressing_mode_mtu_register expression_list section origin preprocessor struct_def : RuleName
  label binary_op unary_op none_rule : RuleName

-- The number of an enumerator.
abbrev rule_code : RuleName → ℕ
rule_code RuleName.command = 0
rule_code RuleName.expression = 1
rule_code RuleName.declaration = 2
rule_code RuleName.instruction_rule = 3
rule_code RuleName.instruction_line = 4
rule_code RuleName.addressing_mode = 5
rule_code RuleName.addressing_mode_immediate = 6
rule_code RuleName.addressing_mode_relative_bp = 7
rule_code RuleName.addressing_mode_relative_array = 8
rule_code RuleName.addressing_mode_relative_pc = 9
rule_code RuleName.addressing_mode_absolute = 10
rule_code RuleName.addressing_mode_indirect = 11
rule_code RuleName.addressing_mode_memory_to_memory = 12
rule_code RuleName.addressing_mode_memory_to_register = 13
rule_code RuleName.addressing_mode_register_to_register = 14
rule_code RuleName.addressing_mode_register = 15
rule_code RuleName.addressing_mode_memory = 16
rule_code RuleName.addressing_mode_reg_to_bp = 17
rule_code RuleName.addressing_mode_mtu_immediate = 18
rule_code RuleName.addressing_mode_mtu_absolute = 19
rule_code RuleName.addressing_mode_mtu_relative_pc = 20
rule_code RuleName.addressing_mode_mtu_relative_bp = 21
rule_code RuleName.addressing_mode_mtu_register = 22
rule_code RuleName.expression_list = 23
rule_code RuleName.section = 24
rule_code RuleName.origin = 25
rule_code RuleName.preprocessor = 26
rule_code RuleName.struct_def = 27
rule_code RuleName.label = 28
rule_code RuleName.binary_op = 29
rule_code RuleName.unary_op = 30
rule_code RuleName.none_rule = 31

abbrev pub same_rule : RuleName → RuleName → Bool
same_rule a b = rule_code a == rule_code b

mutual
  pub data Ast : Type 0 where
    node : RuleName → Token → Asts → Ast

  pub data Asts : Type 0 where
    nil : Asts
    cons : Ast → Asts → Asts

abbrev pub token_of : Ast → Token
token_of (node rule t children) = t

abbrev pub rule_of : Ast → RuleName
rule_of (node rule t children) = rule

abbrev pub children_of : Ast → Asts
children_of (node rule t children) = children

abbrev pub text_of : Ast → List ℕ
text_of a = (token_of a).value

pub data AddressingMode : Type 0 where
  implied_mode immediate_byte immediate_word register_access_mode : AddressingMode
  register_to_register_mode memory_absolute memory_absolute_indexed memory_indirect : AddressingMode
  memory_indirect_indexed memory_relative_to_pc memory_relative_to_pc_with_register : AddressingMode
  memory_relative_to_bp memory_relative_to_bp_with_register : AddressingMode
  immediate_to_memory_absolute immediate_to_memory_absolute_indexed : AddressingMode
  immediate_to_memory_relative_to_bp immediate_to_memory_relative_to_bp_with_register :
      AddressingMode
  register_to_memory_absolute memory_absolute_to_register immediate_to_register : AddressingMode
  register_to_memory_relative_to_pc memory_relative_to_pc_to_register : AddressingMode
  register_to_memory_relative_to_bp memory_relative_to_bp_to_register : AddressingMode
  low_register_to_memory_absolute memory_absolute_to_low_register : AddressingMode
  immediate_to_low_register low_register_to_memory_relative_to_pc : AddressingMode
  memory_relative_to_pc_to_low_register low_register_to_memory_relative_to_bp : AddressingMode
  memory_relative_to_bp_to_low_register : AddressingMode

-- `none` is a null pointer. `index` is the second part of `indexing`; `minus` tells that the first is
-- `-`.
pub record Instruction : Type 0 where
  pub addressing_mode : AddressingMode
  pub op1 : Option Ast
  pub op2 : Option Ast
  pub minus : Bool
  pub index : Option Ast
  pub instruction : List ℕ
  pub addr_mode_size : ℕ
  pub label : List ℕ

pub record Label : Type 0 where
  pub address : ℕ
  pub is_local : Bool
  pub module_name : List ℕ
  pub size : ℕ

pub record Variable : Type 0 where
  pub bp_relative_address : ℕ
  pub label : List ℕ

pub record Environment : Type 0 where
  pub labels : List (List ℕ × Label)
  pub variables : List (List ℕ × Variable)
  pub instructions : List Instruction

-- One constructor for each message, of the analyzer and of the last pass. What a message says of
-- similar names is left out.
pub data AsmError : Type 0 where
  undefined_reference no_access undefined_label undefined_variable : Token → AsmError
  division_by_zero exceeds_signed_byte register_subtraction invalid_operand : Token → AsmError
  origin_exceeds origin_below var_outside_label redefinition undefined_structure : Token → AsmError
  value_exceeds_variable unsupported_mode indexed_byte_only full_registers_only : Token → AsmError
  data_loss argument_exceeds_byte reserve_exceeds literal_exceeds : Token → AsmError
  unresolved_size unresolved_offset unresolved_address unexpected_type : Token → AsmError
  program_exceeds : AsmError

abbrev pub is_warning : AsmError → Bool
is_warning (AsmError.value_exceeds_variable t) = true
is_warning (AsmError.argument_exceeds_byte t) = true
is_warning _ = false

-- `has_errors`.
unfoldable pub has_errors : List AsmError → Bool
has_errors [] = false
has_errors (e ∷ es) = not (is_warning e) || has_errors es

abbrev pub child_at : Asts → ℕ → Option Ast
child_at nil i = none
child_at (cons a rest) zero = some a
child_at (cons a rest) (suc i) = child_at rest i

abbrev pub count : Asts → ℕ
count nil = 0
count (cons a rest) = suc (count rest)

abbrev pub find : {A : Type 0} → List ℕ → List (List ℕ × A) → Option A
find key [] = none
find key ((k, v) ∷ rest) = if same_text k key then some v else find key rest
