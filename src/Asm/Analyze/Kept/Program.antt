-- ===== src/Asm/Analyze/Kept/Program.antt =====
-- A whole program of assembler/include/analyzer.hh keeps its invariant.
use anc.Base.{◌≡◌, refl, Option, some, ltb, if◌then◌else◌, if_cases, option_cases}
use anc.Asm.Analyze.{
  statement, analyze_command, analyze_commands, analyze, finish_analysis, empty_analysis,
}
use anc.Asm.Analyze.State.{Analysis, is_empty_text}
use anc.Asm.Analyze.Labels.{close_label}
use anc.Asm.Analyze.Aligned.{Aligned}
use anc.Asm.Analyze.Kept.{
  Keeps, some-Keeps, none-Keeps, and_analysis-Keeps, analyze_section-Keeps, analyze_label-Keeps,
  closed-Aligned, same_analysis,
}
use anc.Asm.Analyze.Kept.Operation.{analyze_instruction-Keeps, analyze_origin-Keeps}
use anc.Asm.Analyze.Kept.Declared.{analyze_declaration-Keeps}
use anc.Asm.Analyze.Kept.Data.{analyze_expression_list-Keeps, analyze_structure-Keeps}
use mathlib.Core.Path.{subst}
use anc.Asm.Eval.{Stoi}
use anc.Asm.Tree.{nil, cons, node, Ast, Asts, RuleName, rule_of, children_of, same_rule}

module _ (stoi : Stoi) where
  statement-Keeps : (a : Ast) (st : Analysis) → Aligned st → Keeps (statement stoi a st)
  unfolding statement
  statement-Keeps a st p =
      let kids = children_of a in
      if_cases Keeps (same_rule (rule_of a) RuleName.section) (λ _. analyze_section-Keeps kids st p)
        λ _.
          if_cases Keeps (same_rule (rule_of a) RuleName.struct_def)
            (λ _. analyze_structure-Keeps kids st p)
            λ _.
              if_cases Keeps (same_rule (rule_of a) RuleName.declaration)
                (λ _. analyze_declaration-Keeps stoi kids st p)
                λ _.
                  if_cases Keeps (same_rule (rule_of a) RuleName.label)
                    (λ _. analyze_label-Keeps kids st p)
                    λ _.
                      if_cases Keeps (same_rule (rule_of a) RuleName.instruction_rule)
                        (λ _. analyze_instruction-Keeps stoi kids st p)
                        λ _.
                          if_cases Keeps (same_rule (rule_of a) RuleName.expression_list)
                            (λ _. analyze_expression_list-Keeps stoi a st p)
                            λ _.
                              if_cases Keeps (same_rule (rule_of a) RuleName.origin)
                                (λ _. analyze_origin-Keeps stoi kids st p) λ _. some-Keeps st p

  mutual
    unfolding analyze_command

    analyze_command-Keeps :
        (a : Ast) (st : Analysis) → Aligned st → Keeps (analyze_command stoi a st)
    analyze_command-Keeps (node rule t kids) st p =
        if_cases Keeps (same_rule rule RuleName.command) (λ _. analyze_commands-Keeps kids st p)
          λ _. statement-Keeps (node rule t kids) st p

    analyze_commands-Keeps :
        (kids : Asts) (st : Analysis) → Aligned st → Keeps (analyze_commands stoi kids st)
    analyze_commands-Keeps nil st p = some-Keeps st p
    analyze_commands-Keeps (cons a rest) st p =
        and_analysis-Keeps (analyze_command stoi a st) _ (analyze_command-Keeps a st p)
          λ next q. analyze_commands-Keeps rest next q

  finish_analysis-Aligned : (st : Analysis) → Aligned st → Aligned (finish_analysis stoi st)
  finish_analysis-Aligned st p =
      let closed = if is_empty_text st.current_label then st else close_label st in
      let q = closed-Aligned (is_empty_text st.current_label) st p in
      if_cases Aligned (ltb 65536 closed.current_address) (λ _. q) λ _. q

-- What the analyzer hands to the last pass: the address that it has reached is the sum of the sizes
-- of its lines, each line has the size that will be emitted for it, unless it is an immediate that is
-- neither a byte nor a word or a string without its quotes, and before each label stand lines of as
-- many bytes as its address says.
pub analyze-Aligned :
    (stoi : Stoi) (root : Ast) (st : Analysis) → analyze stoi root ≡ some st → Aligned st
unfolding analyze
analyze-Aligned stoi root st =
    option_cases (λ (o : Option Analysis). o ≡ some st → Aligned st)
      (analyze_command stoi root (empty_analysis stoi)) (λ _ h. none-Keeps st h)
      λ done h e. subst Aligned (same_analysis (finish_analysis stoi done) st e) (
        finish_analysis-Aligned stoi done
          (analyze_command-Keeps stoi root (empty_analysis stoi) (refl, tt, tt) done h))
