-- ===== src/Asm/Analyze.antt =====
-- The analyzer, assembler/include/analyzer.hh: it gives each label its address and each line its
-- instruction, with the size that it will have. The addresses are not cut to 64 bits.
pub mod State
pub mod Line
pub mod Labels
pub mod Structure
pub mod Declare
pub mod Data
pub mod Aligned
pub mod Kept
pub mod Layout
use anc.Asm.Eval.{Stoi}
use anc.Base.{Option, none, some, [], ltb, if◌then◌else◌}
use anc.Asm.Tree.{
  nil, cons, node, RuleName, AsmError, Ast, Asts, Environment, children_of, same_rule, rule_of,
}
use anc.Asm.Analyze.State.{Analysis, and_analysis, complain, is_empty_text}
use anc.Asm.Analyze.Line.{analyze_instruction, analyze_origin}
use anc.Asm.Analyze.Labels.{analyze_label, analyze_section, close_label}
use anc.Asm.Analyze.Structure.{analyze_structure}
use anc.Asm.Analyze.Declare.{analyze_declaration}
use anc.Asm.Analyze.Data.{analyze_expression_list}

module _ (stoi : Stoi) where
  -- The `switch` of `analyze_command` but its first case.
  unfoldable pub statement : Ast → Analysis → Option Analysis
  unfolding analyze_section analyze_structure analyze_declaration analyze_label analyze_instruction
      analyze_expression_list analyze_origin
  statement a st =
      let kids = children_of a in
      if same_rule (rule_of a) RuleName.section
      then analyze_section kids st
      else if same_rule (rule_of a) RuleName.struct_def
      then analyze_structure kids st
      else if same_rule (rule_of a) RuleName.declaration
      then analyze_declaration stoi kids st
      else if same_rule (rule_of a) RuleName.label
      then analyze_label kids st
      else if same_rule (rule_of a) RuleName.instruction_rule
      then analyze_instruction stoi kids st
      else if same_rule (rule_of a) RuleName.expression_list
      then analyze_expression_list stoi a st
      else if same_rule (rule_of a) RuleName.origin
      then analyze_origin stoi kids st
      else some st

  -- The stack of pending trees hands out the statements from left to right.
  unfoldable mutual
    unfolding statement

    pub analyze_command : Ast → Analysis → Option Analysis
    analyze_command (node rule t kids) st =
        let inside = analyze_commands kids st in
        if same_rule rule RuleName.command then inside else statement (node rule t kids) st

    pub analyze_commands : Asts → Analysis → Option Analysis
    analyze_commands nil st = some st
    analyze_commands (cons a rest) st =
        and_analysis (analyze_command a st) (λ next. analyze_commands rest next)

  abbrev pub empty_analysis : Analysis
  empty_analysis = record {
    labels = [];
    structures = [];
    variables = [];
    instructions = [];
    current_address = 0;
    bp_relative_address = 0;
    current_label = [];
    current_section = [];
    errors = [];
  }

  abbrev pub finish_analysis : Analysis → Analysis
  finish_analysis st =
      let closed = if is_empty_text st.current_label then st else close_label st in
      if ltb 65536 closed.current_address then complain AsmError.program_exceeds closed else closed

  unfoldable pub analyze : Ast → Option Analysis
  unfolding analyze_command
  analyze root = elim (analyze_command root empty_analysis) [
    | none ↦ none
    | some st ↦ some (finish_analysis st)
  ]

  abbrev pub environment_of : Analysis → Environment
  environment_of st = record {
    labels = st.labels;
    variables = st.variables;
    instructions = st.instructions;
  }
