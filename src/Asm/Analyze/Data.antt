-- ===== src/Asm/Analyze/Data.antt =====
-- `analyze_expression_list` of assembler/include/analyzer.hh.
use anc.Asm.Size.{eval_constant, get_expression_size}
use anc.Asm.Modes.Operand.{blank}
use anc.Asm.Eval.{Stoi}
use anc.Base.{ℕ, ◌+◌, ◌-◌, ◌||◌, Option, none, some, List, ltb, if◌then◌else◌, codes, length}
use anc.Asm.Tree.{
  nil, cons, node, RuleName, TokenType, AddressingMode, AsmError, Ast, Token, Asts, child_at,
  text_of, token_of, rule_of, same_rule,
}
use anc.Asm.Analyze.State.{
  Analysis, advance_by, and_analysis, as_size, complain, noting, push_instruction,
}

module _ (stoi : Stoi) where
  abbrev pub data_line : List ℕ → Option Ast → ℕ → Analysis → Analysis
  data_line name op size st = advance_by size (
      push_instruction
        (record (blank AddressingMode.implied_mode size) { instruction = name; op1 = op }) st)

  abbrev pub reserve_line : Token → ℕ → Analysis → Analysis
  reserve_line t size st =
      if ltb 65536 size || ltb 65536 (st.current_address + size)
      then data_line (codes "reserve") none 0 (complain (AsmError.reserve_exceeds t) st)
      else data_line (codes "reserve") none size st

  -- The text without its quotes, as a `size_t`.
  abbrev pub string_size : ℕ → ℕ
  string_size n = if ltb n 2 then 0x10000000000000000 + n - 2 else n - 2

  -- One element of the list: a string, `reserve` with a size, or an expression.
  abbrev pub list_element : TokenType → Ast → Asts → Analysis → Option Analysis
  list_element TokenType.string_literal a kids st =
      some (data_line (codes "string") (some a) (string_size (length (text_of a))) st)
  list_element TokenType.keyword a kids st = elim (child_at kids 0) [
    | none ↦ none
    | some n ↦
        noting (eval_constant stoi st.current_address n) st
          (λ z noted. some (reserve_line (token_of a) (as_size z) noted))
  ]
  list_element _ a kids st =
      noting (get_expression_size stoi st.current_address a) st
        (λ size noted. some (data_line (codes "expression") (some a) size noted))

  -- The rest of the list is the last child_at.
  unfoldable mutual
    unfolding eval_constant get_expression_size

    pub analyze_expression_list : Ast → Analysis → Option Analysis
    analyze_expression_list (node rule t nil) st = none
    analyze_expression_list (node rule t (cons a kids)) st =
        and_analysis (list_element (token_of a).type a kids st) (λ next. analyze_last a kids next)

    pub analyze_last : Ast → Asts → Analysis → Option Analysis
    analyze_last a nil st = some st
    analyze_last a (cons b nil) st =
        let more = analyze_expression_list b st in
        if same_rule (rule_of b) RuleName.expression_list then more else some st
    analyze_last a (cons b (cons c rest)) st = analyze_last a (cons c rest) st
