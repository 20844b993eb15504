-- ===== src/Asm/Modes/Operand.antt =====
-- The first modes of `get_instruction`, and the variables in scope, of assembler/include/analyzer.hh.
use anc.Asm.Tree.{RuleName, same_rule}
use anc.Asm.Dump.{is_register}
use anc.Asm.Eval.{evaluated, report}
use anc.Asm.Encode.{char_at, byte_s, word_s}
use anc.Asm.Eval.{Evaluated, is_identifier}
use anc.Base.{
  ℕ, Bool, false, Option, none, some, List, [], ◌++◌, ltb, ◌==◌, if◌then◌else◌, codes, same_text,
}
use anc.Asm.Tree.{
  nil, cons, node, AddressingMode, Ast, Asts, Token, Variable, Instruction, find, rule_of, text_of,
  token_of, AsmError, child_at, count,
}

-- An `Instruction` with nothing set.
abbrev pub blank : AddressingMode → ℕ → Instruction
blank mode size = record {
  addressing_mode = mode;
  op1 = none;
  op2 = none;
  minus = false;
  index = none;
  instruction = [];
  addr_mode_size = size;
  label = [];
}

-- A child_at that is not there is not read with a result.
abbrev pub with_child : {A : Type 0} → Asts → ℕ → (Ast → Evaluated A) → Evaluated A
with_child kids i go = elim (child_at kids i) [ none ↦ none | some a ↦ go a ]

abbrev pub is_expression : Ast → Bool
is_expression a = same_rule (rule_of a) RuleName.expression

abbrev pub is_named : Ast → Bool
is_named a = is_identifier (token_of a).type

abbrev pub is_text : Ast → List ℕ → Bool
is_text a text = same_text (text_of a) text

abbrev pub is_minus : Ast → Bool
is_minus a = char_at (some a) 0 == 45

abbrev pub get_relative : Asts → Evaluated Instruction
get_relative kids = with_child kids 1 (λ x.
    if is_register (some x)
    then evaluated (record (blank AddressingMode.memory_relative_to_pc_with_register 0) {
      op1 = some x;
      index = some x;
    })
    else if ltb 2 (count kids)
    then with_child kids 3 (λ y.
      evaluated (record (blank AddressingMode.register_to_memory_relative_to_pc byte_s) {
        op1 = some x;
        op2 = some y;
      }))
    else evaluated (record (blank AddressingMode.memory_relative_to_pc byte_s) { op1 = some x }))

abbrev pub get_indirect : Asts → Evaluated Instruction
get_indirect kids = with_child kids 1 (λ x.
    if count kids == 3
    then evaluated (record (blank AddressingMode.memory_indirect word_s) { op1 = some x })
    else with_child kids 3 (λ sign. with_child kids 4 (λ y.
      evaluated (record (blank AddressingMode.memory_indirect_indexed word_s) {
        op1 = some x;
        minus = is_minus sign;
        index = some y;
      }))))

-- Where the analyzer is: what `variable_key` and the lookups of variables read.
pub record Scope : Type 0 where
  pub variables : List (List ℕ × Variable)
  pub current_label : List ℕ
  pub current_address : ℕ

abbrev pub variable_key : Scope → List ℕ → List ℕ
variable_key s name = s.current_label ++ codes "::" ++ name

abbrev pub variable : Scope → Token → Option Variable
variable s t = find (variable_key s t.value) s.variables

abbrev pub belongs : Scope → Option Variable → Bool
belongs s none = false
belongs s (some v) = same_text v.label s.current_label

-- Keys are unique, so the loop over the variables is a lookup.
abbrev pub check_local_variables : Scope → Token → Evaluated (Unit {0})
check_local_variables s t =
    if belongs s (variable s t) then evaluated tt else report (AsmError.undefined_variable t) tt

-- The identifier that an expression is, below nodes of one child_at.
unfoldable pub var_expression : Ast → Option Token
var_expression (node rule t nil) = none
var_expression (node rule t (cons x nil)) =
    let below = var_expression x in if is_named x then some (token_of x) else below
var_expression (node rule t (cons x (cons y rest))) = none

-- The variable of `is_var_expression`, with its token.
abbrev pub expression_variable : Scope → Option Token → Option (Token × Variable)
expression_variable s none = none
expression_variable s (some t) = elim (variable s t) [ none ↦ none | some v ↦ some (t, v) ]
