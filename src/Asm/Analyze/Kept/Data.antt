-- ===== src/Asm/Analyze/Kept/Data.antt =====
-- `analyze_expression_list` and `analyze_structure` of assembler/include/analyzer.hh keep its invariant.
use anc.Base.{
  ℕ, ◌+◌, ◌≡◌, refl, ap, inl, inr, ◌||◌, Option, none, some, List, [], ltb, Bool-cases, if_cases,
  option_cases, codes, same_text, length, IsWidth,
}
use anc.Asm.Analyze.State.{Analysis, complain, put, noting, as_size}
use anc.Asm.Analyze.Aligned.{Aligned, IsSized, line-Aligned}
use anc.Asm.Dump.{size_of}
use anc.Asm.Modes.Operand.{blank}
use anc.Asm.Eval.{Stoi}
use anc.Asm.Size.{eval_constant, get_expression_size}
use anc.Asm.Tree.{
  nil, cons, AddressingMode, Asts, Instruction, Token, child_at, text_of, token_of, AsmError, Ast,
  TokenType, node, same_rule, rule_of, RuleName,
}
use anc.Asm.Analyze.Kept.{
  Keeps, some-Keeps, none-Keeps, noting-Keeps, noting_any, and_analysis-Keeps,
}
use anc.Asm.Analyze.Data.{
  string_size, data_line, reserve_line, list_element, analyze_expression_list, analyze_last,
}
use anc.Asm.Analyze.Structure.{struct_el, struct_rest, analyze_structure}
use anc.Asm.Size.Laws.{get_expression_size-IsSize}
use anc.Asm.Modes.Sized.{by_width}

-- A line of data of the size that is noted for it.
data_line-Aligned :
    (stoi : Stoi) (name : List ℕ) (op : Option Ast) (size : ℕ) (st : Analysis)
    → let ins : Instruction = record (blank AddressingMode.implied_mode size) {
      instruction = name;
      op1 = op;
    } in
      IsSized ins × (size ≡ size_of ins) → Aligned st → Aligned (data_line stoi name op size st)
data_line-Aligned stoi name op size st (sized, same) p =
    line-Aligned (record (blank AddressingMode.implied_mode size) { instruction = name; op1 = op })
      st (st.current_address + size) sized (ap (λ n. st.current_address + n) same) p

reserve_line-Aligned :
    (stoi : Stoi) (t : Token) (size : ℕ) (st : Analysis)
    → Aligned st
    → Aligned (reserve_line stoi t size st)
unfolding same_text
reserve_line-Aligned stoi t size st p =
    if_cases Aligned (ltb 65536 size || ltb 65536 (st.current_address + size))
      (λ _.
        data_line-Aligned stoi (codes "reserve") none 0 (complain (AsmError.reserve_exceeds t) st)
          (inr refl, refl) p)
      λ _. data_line-Aligned stoi (codes "reserve") none size st (inr refl, refl) p

string-IsSized :
    (stoi : Stoi) (a : Ast)
    → IsSized (record (blank AddressingMode.implied_mode (string_size stoi (length (text_of a)))) {
      instruction = codes "string";
      op1 = some a;
    })
unfolding same_text
string-IsSized stoi a = elim (Bool-cases (ltb (length (text_of a)) 2)) [
  | inl h ↦ inl (rw h refl)
  | inr h ↦ inr (rw h refl)
]

string-Aligned :
    (stoi : Stoi) (a : Ast) (st : Analysis)
    → Aligned st
    → Aligned (data_line stoi (codes "string") (some a) (string_size stoi (length (text_of a))) st)
unfolding same_text
string-Aligned stoi a st p =
    data_line-Aligned stoi (codes "string") (some a) (string_size stoi (length (text_of a))) st
      (string-IsSized stoi a, refl) p

expression-Aligned :
    (stoi : Stoi) (a : Ast) (size : ℕ) (st : Analysis)
    → IsWidth size
    → Aligned st
    → Aligned (data_line stoi (codes "expression") (some a) size st)
unfolding same_text
expression-Aligned stoi a size st w p =
    data_line-Aligned stoi (codes "expression") (some a) size st
      (
        by_width
            (λ n. IsSized (record (blank AddressingMode.implied_mode n) {
              instruction = codes "expression";
              op1 = some a;
            }))
            (inr refl) (inr refl) size w,
        refl,
      )
      p

module _ (stoi : Stoi) where
  expression_element-Keeps :
      (a : Ast) (st : Analysis)
      → Aligned st
      → Keeps (
          noting
            (get_expression_size stoi st.current_address a)
            st
            (λ size noted. some (data_line stoi (codes "expression") (some a) size noted)))
  expression_element-Keeps a st p =
      noting-Keeps IsWidth (get_expression_size stoi st.current_address a) st _
        (get_expression_size-IsSize stoi st.current_address a) p
        λ size noted w q. some-Keeps _ (expression-Aligned stoi a size noted w q)

  list_element-Keeps :
      (t : TokenType) (a : Ast) (kids : Asts) (st : Analysis)
      → Aligned st
      → Keeps (list_element stoi t a kids st)
  list_element-Keeps TokenType.string_literal a kids st p =
      some-Keeps _ (string-Aligned stoi a st p)
  list_element-Keeps TokenType.keyword a kids st p =
      option_cases Keeps (child_at kids 0) (λ _. none-Keeps)
        λ n _.
          noting_any (eval_constant stoi st.current_address n) st _ p
            λ z noted q. some-Keeps _ (reserve_line-Aligned stoi (token_of a) (as_size z) noted q)
  list_element-Keeps _ a kids st p = expression_element-Keeps a st p

  mutual
    unfolding analyze_expression_list

    pub analyze_expression_list-Keeps :
        (a : Ast) (st : Analysis) → Aligned st → Keeps (analyze_expression_list stoi a st)
    analyze_expression_list-Keeps (node rule t nil) st p = none-Keeps
    analyze_expression_list-Keeps (node rule t (cons a kids)) st p =
        and_analysis-Keeps (list_element stoi (token_of a).type a kids st) _
          (list_element-Keeps (token_of a).type a kids st p)
          λ next q. analyze_last-Keeps a kids next q

    analyze_last-Keeps :
        (a : Ast) (kids : Asts) (st : Analysis) → Aligned st → Keeps (analyze_last stoi a kids st)
    analyze_last-Keeps a nil st p = some-Keeps st p
    analyze_last-Keeps a (cons b nil) st p =
        if_cases Keeps (same_rule (rule_of b) RuleName.expression_list)
          (λ _. analyze_expression_list-Keeps b st p) λ _. some-Keeps st p
    analyze_last-Keeps a (cons b (cons c rest)) st p = analyze_last-Keeps a (cons c rest) st p

mutual
  unfolding struct_el

  struct_el-Keeps :
      (name : List ℕ) (a : Ast) (st : Analysis) → Aligned st → Keeps (struct_el name a st)
  struct_el-Keeps name (node rule t nil) st p = none-Keeps
  struct_el-Keeps name (node rule t (cons field nil)) st p = none-Keeps
  struct_el-Keeps name (node rule t (cons field (cons colon nil))) st p = none-Keeps
  struct_el-Keeps name (node rule t (cons field (cons colon (cons kind rest)))) st p =
      struct_rest-Keeps name rest _ p

  struct_rest-Keeps :
      (name : List ℕ) (kids : Asts) (st : Analysis) → Aligned st → Keeps (struct_rest name kids st)
  struct_rest-Keeps name nil st p = some-Keeps st p
  struct_rest-Keeps name (cons a nil) st p =
      if_cases Keeps (same_rule (rule_of a) RuleName.struct_def) (λ _. struct_el-Keeps name a st p)
        λ _. some-Keeps st p
  struct_rest-Keeps name (cons a (cons b rest)) st p = struct_rest-Keeps name (cons b rest) st p

pub analyze_structure-Keeps :
    (kids : Asts) (st : Analysis) → Aligned st → Keeps (analyze_structure kids st)
unfolding analyze_structure
analyze_structure-Keeps kids st p =
    option_cases Keeps (child_at kids 1) (λ _. none-Keeps)
      λ name _.
        option_cases Keeps (child_at kids 3) (λ _. none-Keeps)
          λ a _.
            struct_el-Keeps (text_of name) a
              (record st { structures = put (text_of name) [] st.structures }) p
