-- ===== src/Asm/Modes/Load.antt =====
-- Immediates, absolute places and loads: `get_immediate`, `get_absolute` and `get_memory_to_reg` of
-- assembler/include/analyzer.hh.
use anc.Asm.Dump.{number_node}
use anc.Asm.Size.{get_expression_size}
use anc.Asm.Eval.{and_value, evaluated, report}
use anc.Asm.Encode.{byte_s, is_low, word_s}
use anc.Asm.Eval.{Stoi, Evaluated}
use anc.Base.{ℕ, ◌+◌, Bool, true, false, ◌&&◌, ◌||◌, Option, none, some, ◌==◌, if◌then◌else◌, codes}
use anc.Asm.Tree.{
  AddressingMode, Ast, Asts, Token, Variable, Instruction, token_of, AsmError, count,
}
use anc.Asm.Modes.Operand.{
  blank, with_child, is_expression, is_named, is_text, is_minus, check_local_variables,
  var_expression, expression_variable, Scope,
}

module _ (stoi : Stoi) (s : Scope) where
  abbrev pub size_at : Ast → Evaluated ℕ
  size_at a = get_expression_size stoi s.current_address a

  abbrev pub sized_immediate : Ast → ℕ → Instruction
  sized_immediate a size =
      record (blank
        (if size == word_s then AddressingMode.immediate_word else AddressingMode.immediate_byte)
        size) { op1 = some a }

  abbrev pub get_immediate : Ast → Evaluated Instruction
  get_immediate a = and_value (size_at a) (λ size. evaluated (sized_immediate a size))

  -- The second operand of an absolute mode.
  abbrev pub absolute_source : Bool → Instruction → Ast → Evaluated Instruction
  absolute_source indexed ins y =
      if is_expression y
      then and_value (size_at y) (λ size. evaluated (record ins {
        addressing_mode =
            if indexed
            then AddressingMode.immediate_to_memory_absolute_indexed
            else AddressingMode.immediate_to_memory_absolute;
        addr_mode_size = word_s + size;
        op2 = some y;
      }))
      else evaluated (record ins {
        addressing_mode = AddressingMode.register_to_memory_absolute;
        addr_mode_size = word_s;
        op2 = some y;
      })

  abbrev pub get_absolute : Asts → Evaluated Instruction
  get_absolute kids = with_child kids 1 (λ x.
      if count kids == 2
      then evaluated (record (blank AddressingMode.memory_absolute word_s) { op1 = some x })
      else with_child kids 2 (λ sign.
        if is_text sign (codes "+") || is_text sign (codes "-")
        then with_child kids 3 (λ i.
          let indexed : Instruction = record (blank AddressingMode.memory_absolute_indexed word_s) {
            op1 = some x;
            minus = is_minus sign;
            index = some i;
          } in
          if count kids == 4
          then evaluated indexed
          else with_child kids 5 (λ y. absolute_source true indexed y))
        else with_child kids 3 (λ y.
          absolute_source false
            (record (blank AddressingMode.memory_absolute word_s) { op1 = some x }) y)))

  -- `load r0, x` with a variable: its place relative to BP.
  abbrev pub load_variable : Ast → Ast → Token × Variable → Evaluated Instruction
  load_variable r x (t, v) = and_value (check_local_variables s t) (λ _.
      evaluated (record (blank AddressingMode.memory_relative_to_bp_to_register byte_s) {
        op1 = some r;
        op2 = some x;
        index = some (number_node v.bp_relative_address);
      }))

  -- A word for a register of one byte is an error.
  abbrev pub load_immediate : Ast → Ast → Token → Evaluated Instruction
  load_immediate r x at =
      let size = if is_low (some r) then byte_s else word_s in
      let ins : Instruction = record (blank AddressingMode.immediate_to_register size) {
        op1 = some r;
        op2 = some x;
      } in
      and_value (size_at x) (λ n.
        if n == word_s && size == byte_s then report (AsmError.data_loss at) ins else evaluated ins)

  abbrev pub warn_word : Ast → Token → Evaluated (Unit {0})
  warn_word a t =
      and_value (size_at a)
        (λ n. if n == word_s then report (AsmError.argument_exceeds_byte t) tt else evaluated tt)

  abbrev pub load_element : Asts → Ast → Ast → Evaluated Instruction
  load_element kids r x = and_value (check_local_variables s (token_of x)) (λ _.
      with_child kids 4 (λ i. and_value (warn_word i (token_of r)) (λ _.
        evaluated (record (blank AddressingMode.memory_relative_to_bp_to_register byte_s) {
          op1 = some r;
          op2 = some x;
          index = some i;
        }))))

  abbrev pub load_memory : Asts → Ast → Evaluated Instruction
  load_memory kids r = with_child kids 3 (λ b.
      if is_text b (codes "bp")
      then with_child kids 4 (λ sign. with_child kids 5 (λ i.
        evaluated (record (blank AddressingMode.memory_relative_to_bp_to_register byte_s) {
          op1 = some r;
          minus = is_minus sign;
          index = some i;
        })))
      else evaluated (record (blank AddressingMode.memory_absolute_to_register word_s) {
        op1 = some r;
        op2 = some b;
      }))

  abbrev pub load_relative : Asts → Ast → Evaluated Instruction
  load_relative kids r = with_child kids 3 (λ b. and_value (warn_word b (token_of r)) (λ _.
      evaluated (record (blank AddressingMode.memory_relative_to_pc_to_register byte_s) {
        op1 = some r;
        op2 = some b;
      })))

  abbrev pub load_expression : Ast → Ast → Token → Option (Token × Variable) → Evaluated Instruction
  load_expression r x at none = load_immediate r x at
  load_expression r x at (some v) = load_variable r x v

  abbrev pub get_memory_to_reg : Asts → Evaluated Instruction
  get_memory_to_reg kids = with_child kids 0 (λ r. with_child kids 1 (λ comma.
      with_child kids 2 (λ x.
        if is_expression x
        then load_expression r x (token_of comma) (expression_variable s (var_expression x))
        else if is_named x
        then load_element kids r x
        else if is_text x (codes "&")
        then load_memory kids r
        else if is_text x (codes "*")
        then load_relative kids r
        else evaluated (record (blank AddressingMode.register_access_mode 0) { op1 = some r }))))
