-- ===== src/Asm/Modes.antt =====
-- The addressing mode of an instruction and its operands, from the tree of the parser: `get_instruction`
-- of assembler/include/analyzer.hh and the functions that it calls.
pub mod Operand
pub mod Load
pub mod Sized
pub mod Stores
use anc.Asm.Tree.{RuleName, children_of, same_rule}
use anc.Asm.Dump.{number_node}
use anc.Asm.Size.{get_expression_size, eval_constant}
use anc.Asm.Eval.{and_value, evaluated}
use anc.Asm.Encode.{byte_s, low_bits}
use anc.Asm.Eval.{Stoi, Evaluated}
use anc.Base.{ℕ, ◌+◌, Option, none, some, ◌==◌, if◌then◌else◌, same_text, ℤ, ◌+ℤ◌}
use anc.Base.Int.{pos}
use anc.Asm.Tree.{node, AddressingMode, Ast, Asts, Variable, Instruction, rule_of, token_of, count}
use anc.Asm.Modes.Operand.{
  blank, with_child, is_expression, is_minus, get_relative, get_indirect, variable,
  check_local_variables, var_expression, Scope,
}
use anc.Asm.Modes.Load.{size_at, get_immediate, get_absolute, warn_word, get_memory_to_reg}

module _ (stoi : Stoi) (s : Scope) where
  -- `byte_s` for the offset, then the immediate.
  abbrev pub store_bp : Instruction → Ast → Evaluated Instruction
  store_bp ins y =
      if is_expression y
      then and_value (size_at stoi s y) (λ size. evaluated (record ins {
        addressing_mode = AddressingMode.immediate_to_memory_relative_to_bp;
        addr_mode_size = byte_s + size;
        op1 = some y;
      }))
      else evaluated (record ins {
        addressing_mode = AddressingMode.register_to_memory_relative_to_bp;
        addr_mode_size = byte_s;
        op1 = some y;
      })

  abbrev pub store_bp_register : Instruction → Ast → Evaluated Instruction
  store_bp_register ins y =
      if is_expression y
      then and_value (size_at stoi s y) (λ size. evaluated (record ins {
        addressing_mode = AddressingMode.immediate_to_memory_relative_to_bp_with_register;
        addr_mode_size = size;
        op1 = some y;
      }))
      else evaluated (record ins {
        addressing_mode = AddressingMode.register_to_memory_relative_to_bp;
        addr_mode_size = byte_s;
        op1 = some y;
      })

  abbrev pub get_bp_relative : Asts → Evaluated Instruction
  get_bp_relative kids = with_child kids 2 (λ sign. with_child kids 3 (λ i.
      let ins = λ (mode : AddressingMode) (size : ℕ). record (blank mode size) {
        minus = is_minus sign;
        index = some i;
      } in
      if count kids == 4
      then evaluated (
          if is_expression i
          then ins AddressingMode.memory_relative_to_bp byte_s
          else ins AddressingMode.memory_relative_to_bp_with_register 0)
      else with_child kids 5 (λ y.
        if is_expression i
        then store_bp (ins AddressingMode.memory_relative_to_bp byte_s) y
        else store_bp_register (ins AddressingMode.memory_relative_to_bp byte_s) y)))

  -- An element of an array in the frame: the place of the variable and the index, in 64 bits.
  abbrev pub element_place : Variable → ℤ → ℕ
  element_place v z = low_bits 0x10000000000000000 (pos v.bp_relative_address +ℤ z)

  -- A variable that is not there is read without a result, after the error.
  abbrev element_index : Option Variable → Ast → Evaluated Ast
  element_index none i = none
  element_index (some v) i =
      and_value (eval_constant stoi s.current_address i)
        (λ z. evaluated (number_node (element_place v z)))

  abbrev pub get_array_access : Asts → Evaluated Instruction
  get_array_access kids = with_child kids 0 (λ x. with_child kids 1 (λ bracket.
      with_child kids 2 (λ i. and_value (check_local_variables s (token_of x)) (λ _.
        and_value (warn_word stoi s i (token_of bracket)) (λ _.
          and_value (element_index (variable s (token_of x)) i) (λ place. with_child kids 5 (λ y.
            store_bp
              (record (blank AddressingMode.memory_relative_to_bp byte_s) { index = some place })
              y)))))))

  -- `store x, r0` with a variable: nothing is put in `indexing`.
  abbrev pub get_reg_to_bp : Asts → Evaluated Instruction
  get_reg_to_bp kids = with_child kids 0 (λ x. with_child kids 2 (λ r.
      and_value (check_local_variables s (token_of x)) (λ _.
        evaluated (record (blank AddressingMode.register_to_memory_relative_to_bp byte_s) {
          op1 = some x;
          op2 = some r;
        }))))

  abbrev pub get_registers : Asts → Evaluated Instruction
  get_registers kids = with_child kids 0 (λ x. with_child kids 2 (λ y.
      evaluated
        (record (blank AddressingMode.register_to_register_mode 0) { op1 = some x; op2 = some y })))

  -- The last tests of `get_instruction`.
  abbrev pub later_modes : RuleName → Ast → Evaluated Instruction
  later_modes whole a =
      let rule = rule_of a in
      let kids = children_of a in
      if same_rule whole RuleName.addressing_mode_register
      then evaluated (record (blank AddressingMode.register_access_mode 0) { op1 = some a })
      else if same_rule rule RuleName.addressing_mode_relative_pc
      then get_relative kids
      else if same_rule rule RuleName.addressing_mode_reg_to_bp
      then get_reg_to_bp kids
      else if same_rule rule RuleName.addressing_mode_relative_array
      then get_array_access kids
      else evaluated (blank AddressingMode.implied_mode 0)

  unfoldable pub instruction_of : RuleName → Ast → Evaluated Instruction
  unfolding get_expression_size eval_constant var_expression same_text
  instruction_of whole a =
      let rule = rule_of a in
      let kids = children_of a in
      if same_rule rule RuleName.addressing_mode_relative_bp
      then get_bp_relative kids
      else if same_rule rule RuleName.addressing_mode_memory_to_register
      then get_memory_to_reg stoi s kids
      else if same_rule rule RuleName.addressing_mode_absolute
      then get_absolute stoi s kids
      else if same_rule rule RuleName.expression
      then get_immediate stoi s a
      else if same_rule rule RuleName.addressing_mode_indirect
      then get_indirect kids
      else if same_rule rule RuleName.addressing_mode_register_to_register
      then get_registers kids
      else later_modes whole a

  unfoldable pub get_instruction : Ast → Evaluated Instruction
  unfolding instruction_of
  get_instruction (node rule t kids) = with_child kids 0 (λ a. instruction_of rule a)
