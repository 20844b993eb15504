-- ===== src/Asm/Modes/Sized.antt =====
-- The size that `get_instruction` of assembler/include/analyzer.hh notes is that of the arguments that
-- `get_arguments` of assembler/include/assembler.hh makes later.
use mathlib.Core.Path.{subst}
use anc.Asm.Dump.{is_register}
use anc.Base.{
  ℕ, ◌≡◌, refl, sym, inl, inr, Bool, true, false, ◌||◌, Option, none, some, ltb, ◌==◌, if_cases,
  codes, IsWidth,
}
use anc.Asm.Gives.{
  Gives, Gives-evaluated, Gives-report, Gives-and_value, Gives-and, Gives-with_child,
}
use anc.Asm.Encode.Length.{arguments_size}
use anc.Asm.Encode.{is_low, byte_s, word_s}
use anc.Asm.Eval.{Stoi, Evaluated, and_value, evaluated}
use anc.Asm.Size.Laws.{get_expression_size-IsSize}
use anc.Asm.Modes.Operand.{
  Scope, get_indirect, get_relative, check_local_variables, is_expression, is_text,
  expression_variable, var_expression, is_named, variable, blank, is_minus,
}
use anc.Asm.Modes.Load.{
  absolute_source, get_absolute, get_memory_to_reg, size_at, load_expression, warn_word,
}
use anc.Asm.Modes.{
  get_instruction, get_registers, get_array_access, get_bp_relative, get_reg_to_bp, store_bp,
  store_bp_register, element_index, instruction_of, later_modes,
}
use anc.Asm.Tree.{
  node, AddressingMode, Ast, Instruction, Asts, count, Token, Variable, token_of, AsmError,
  RuleName, children_of, rule_of, same_rule,
}

abbrev pub fit_size : Instruction → ℕ
fit_size ins = arguments_size ins.addressing_mode ins.addr_mode_size (is_low ins.op1)

abbrev pub IsFit : Instruction → Type 0
IsFit ins = ins.addr_mode_size ≡ fit_size ins

abbrev AllFit : Evaluated Instruction → Type 0
AllFit r = Gives IsFit r

-- One that needs no more than its mode.
fit : (ins : Instruction) → IsFit ins → AllFit (evaluated ins)
fit ins h = Gives-evaluated IsFit ins h

get_relative-AllFit : (kids : Asts) → AllFit (get_relative kids)
get_relative-AllFit kids = Gives-with_child IsFit kids 1 _ λ x.
    if_cases AllFit (is_register (some x)) (λ _. fit _ refl)
      λ _.
        if_cases AllFit (ltb 2 (count kids)) (λ _. Gives-with_child IsFit kids 3 _ λ y. fit _ refl)
          λ _. fit _ refl

get_indirect-AllFit : (kids : Asts) → AllFit (get_indirect kids)
get_indirect-AllFit kids = Gives-with_child IsFit kids 1 _ λ x.
    if_cases AllFit (count kids == 3) (λ _. fit _ refl)
      λ _. Gives-with_child IsFit kids 3 _ λ sign. Gives-with_child IsFit kids 4 _ λ y. fit _ refl

get_registers-AllFit : (stoi : Stoi) (s : Scope) (kids : Asts) → AllFit (get_registers stoi s kids)
get_registers-AllFit stoi s kids =
    Gives-with_child IsFit kids 0 _ λ x. Gives-with_child IsFit kids 2 _ λ y. fit _ refl

pub by_width : (P : ℕ → Type 0) → P 1 → P 2 → (n : ℕ) → IsWidth n → P n
by_width P one two n (inl h) = subst P (sym h) one
by_width P one two n (inr h) = subst P (sym h) two

module _ (stoi : Stoi) (s : Scope) where
  -- An instruction that depends on the size of an expression.
  sized-AllFit :
      (a : Ast) (ins : ℕ → Instruction)
      → IsFit (ins 1)
      → IsFit (ins 2)
      → AllFit (and_value (size_at stoi s a) (λ size. evaluated (ins size)))
  sized-AllFit a ins one two =
      Gives-and_value IsFit IsWidth (size_at stoi s a) _
        (get_expression_size-IsSize stoi s.current_address a)
        λ size w. fit (ins size) (by_width (λ n. IsFit (ins n)) one two size w)

  absolute_source-AllFit :
      (indexed : Bool) (ins : Instruction) (y : Ast) → AllFit (absolute_source stoi s indexed ins y)
  absolute_source-AllFit true ins y =
      if_cases AllFit (is_expression y) (λ _. sized-AllFit y _ refl refl) λ _. fit _ refl
  absolute_source-AllFit false ins y =
      if_cases AllFit (is_expression y) (λ _. sized-AllFit y _ refl refl) λ _. fit _ refl

  get_absolute-AllFit : (kids : Asts) → AllFit (get_absolute stoi s kids)
  get_absolute-AllFit kids = Gives-with_child IsFit kids 1 _ λ x.
      if_cases AllFit (count kids == 2) (λ _. fit _ refl)
        λ _. Gives-with_child IsFit kids 2 _ λ sign.
          if_cases AllFit (is_text sign (codes "+") || is_text sign (codes "-"))
            (λ _. Gives-with_child IsFit kids 3 _ λ i.
              if_cases AllFit (count kids == 4) (λ _. fit _ refl)
                λ _. Gives-with_child IsFit kids 5 _ λ y.
                  absolute_source-AllFit true
                    (record (blank AddressingMode.memory_absolute_indexed word_s) {
                      op1 = some x;
                      minus = is_minus sign;
                      index = some i;
                    })
                    y)
            λ _. Gives-with_child IsFit kids 3 _ λ y.
              absolute_source-AllFit false
                (record (blank AddressingMode.memory_absolute word_s) { op1 = some x }) y

  load_expression-AllFit :
      (r x : Ast) (at : Token) (v : Option (Token × Variable))
      → AllFit (load_expression stoi s r x at v)
  load_expression-AllFit r x at (some (t, v)) =
      Gives-and IsFit (check_local_variables s t) _ λ _. fit _ refl
  load_expression-AllFit r x at none = Gives-and IsFit (size_at stoi s x) _ λ n.
      if_cases AllFit _ (λ _. Gives-report IsFit (AsmError.data_loss at) _ refl) λ _. fit _ refl

  get_memory_to_reg-AllFit : (kids : Asts) → AllFit (get_memory_to_reg stoi s kids)
  get_memory_to_reg-AllFit kids = Gives-with_child IsFit kids 0 _ λ r.
      Gives-with_child IsFit kids 1 _ λ comma. Gives-with_child IsFit kids 2 _ λ x.
        if_cases AllFit (is_expression x)
          (λ _.
            load_expression-AllFit r x (token_of comma) (expression_variable s (var_expression x)))
          λ _.
            if_cases AllFit (is_named x)
              (λ _. Gives-and IsFit (check_local_variables s (token_of x)) _ λ _.
                Gives-with_child IsFit kids 4 _
                  λ i. Gives-and IsFit (warn_word stoi s i (token_of r)) _ λ _. fit _ refl)
              λ _.
                if_cases AllFit (is_text x (codes "&"))
                  (λ _. Gives-with_child IsFit kids 3 _ λ b.
                    if_cases AllFit (is_text b (codes "bp"))
                      (λ _.
                        Gives-with_child IsFit kids 4 _
                          λ sign. Gives-with_child IsFit kids 5 _ λ i. fit _ refl)
                      λ _. fit _ refl)
                  λ _.
                    if_cases AllFit (is_text x (codes "*"))
                      (λ _.
                        Gives-with_child IsFit kids 3 _
                          λ b. Gives-and IsFit (warn_word stoi s b (token_of r)) _ λ _. fit _ refl)
                      λ _. fit _ refl

  store_bp-AllFit : (ins : Instruction) (y : Ast) → AllFit (store_bp stoi s ins y)
  store_bp-AllFit ins y =
      if_cases AllFit (is_expression y) (λ _. sized-AllFit y _ refl refl) λ _. fit _ refl

  store_bp_register-AllFit : (ins : Instruction) (y : Ast) → AllFit (store_bp_register stoi s ins y)
  store_bp_register-AllFit ins y =
      if_cases AllFit (is_expression y) (λ _. sized-AllFit y _ refl refl) λ _. fit _ refl

  get_bp_relative-AllFit : (kids : Asts) → AllFit (get_bp_relative stoi s kids)
  get_bp_relative-AllFit kids = Gives-with_child IsFit kids 2 _ λ sign.
      Gives-with_child IsFit kids 3 _ λ i.
        if_cases AllFit (count kids == 4)
          (λ _. fit _ (if_cases IsFit (is_expression i) (λ _. refl) λ _. refl))
          λ _. Gives-with_child IsFit kids 5 _ λ y.
            if_cases AllFit (is_expression i)
              (λ _.
                store_bp-AllFit
                  (record (blank AddressingMode.memory_relative_to_bp byte_s) {
                    minus = is_minus sign;
                    index = some i;
                  })
                  y)
              λ _.
                store_bp_register-AllFit
                  (record (blank AddressingMode.memory_relative_to_bp byte_s) {
                    minus = is_minus sign;
                    index = some i;
                  })
                  y

  get_array_access-AllFit : (kids : Asts) → AllFit (get_array_access stoi s kids)
  get_array_access-AllFit kids = Gives-with_child IsFit kids 0 _ λ x.
      Gives-with_child IsFit kids 1 _ λ bracket. Gives-with_child IsFit kids 2 _ λ i.
        Gives-and IsFit (check_local_variables s (token_of x)) _ λ _.
          Gives-and IsFit (warn_word stoi s i (token_of bracket)) _ λ _.
            Gives-and IsFit (element_index stoi s (variable s (token_of x)) i) _ λ place.
              Gives-with_child IsFit kids 5 _ λ y.
                store_bp-AllFit
                  (record (blank AddressingMode.memory_relative_to_bp byte_s) {
                    index = some place;
                  })
                  y

  get_reg_to_bp-AllFit : (kids : Asts) → AllFit (get_reg_to_bp stoi s kids)
  get_reg_to_bp-AllFit kids = Gives-with_child IsFit kids 0 _ λ x.
      Gives-with_child IsFit kids 2 _
        λ r. Gives-and IsFit (check_local_variables s (token_of x)) _ λ _. fit _ refl

  later-AllFit : (whole : RuleName) (a : Ast) → AllFit (later_modes stoi s whole a)
  later-AllFit whole a =
      let kids = children_of a in
      let rule = rule_of a in
      if_cases AllFit (same_rule whole RuleName.addressing_mode_register) (λ _. fit _ refl)
        λ _.
          if_cases AllFit (same_rule rule RuleName.addressing_mode_relative_pc)
            (λ _. get_relative-AllFit kids)
            λ _.
              if_cases AllFit (same_rule rule RuleName.addressing_mode_reg_to_bp)
                (λ _. get_reg_to_bp-AllFit kids)
                λ _.
                  if_cases AllFit (same_rule rule RuleName.addressing_mode_relative_array)
                    (λ _. get_array_access-AllFit kids) λ _. fit _ refl

  instruction_of-AllFit : (whole : RuleName) (a : Ast) → AllFit (instruction_of stoi s whole a)
  unfolding instruction_of
  instruction_of-AllFit whole a =
      let kids = children_of a in
      let rule = rule_of a in
      if_cases AllFit (same_rule rule RuleName.addressing_mode_relative_bp)
        (λ _. get_bp_relative-AllFit kids)
        λ _.
          if_cases AllFit (same_rule rule RuleName.addressing_mode_memory_to_register)
            (λ _. get_memory_to_reg-AllFit kids)
            λ _.
              if_cases AllFit (same_rule rule RuleName.addressing_mode_absolute)
                (λ _. get_absolute-AllFit kids)
                λ _.
                  if_cases AllFit (same_rule rule RuleName.expression)
                    (λ _. sized-AllFit a _ refl refl)
                    λ _.
                      if_cases AllFit (same_rule rule RuleName.addressing_mode_indirect)
                        (λ _. get_indirect-AllFit kids)
                        λ _.
                          if_cases AllFit
                            (same_rule rule RuleName.addressing_mode_register_to_register)
                            (λ _. get_registers-AllFit stoi s kids) λ _. later-AllFit whole a

  pub get_instruction-AllFit : (a : Ast) → Gives IsFit (get_instruction stoi s a)
  unfolding get_instruction
  get_instruction-AllFit (node rule t kids) =
      Gives-with_child IsFit kids 0 _ λ a. instruction_of-AllFit rule a
