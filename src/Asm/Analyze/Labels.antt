-- ===== src/Asm/Analyze/Labels.antt =====
-- `analyze_section` and `analyze_label` of assembler/include/analyzer.hh.
use anc.Base.{ℕ, ◌-◌, Bool, true, false, Option, none, some, if◌then◌else◌, codes, same_text}
use anc.Asm.Tree.{nil, cons, AsmError, Token, Asts, find, child_at, text_of, token_of}
use anc.Asm.Analyze.State.{Analysis, complain, is_empty_text, put}

unfoldable pub analyze_section : Asts → Analysis → Option Analysis
analyze_section kids st = elim (child_at kids 2) [
  | none ↦ none
  | some a ↦ some (record st { current_section = text_of a })
]

-- Closing a label: what stands from its address on is its size.
abbrev pub close_label : Analysis → Analysis
close_label st = elim (find st.current_label st.labels) [
  | none ↦ st
  | some l ↦ record st {
    labels = put st.current_label (record l { size = st.current_address - l.address }) st.labels;
  }
]

abbrev pub open_label : Bool → Token → Analysis → Analysis
open_label is_local t st = record st {
  labels =
      put t.value
        (record {
          address = st.current_address;
          is_local = is_local;
          module_name = t.module_name;
          size = 0;
        })
        st.labels;
  current_label = t.value;
  bp_relative_address = 0;
}

unfoldable pub define_label : Bool → Token → Analysis → Analysis
unfolding same_text
define_label is_local t st =
    let closed = if is_empty_text st.current_label then st else close_label st in
    elim (find t.value st.labels) [
      | none ↦ open_label is_local t closed
      | some l ↦ complain (AsmError.redefinition t) st
    ]

abbrev pub label_at : Bool → Asts → ℕ → Analysis → Option Analysis
label_at is_local kids i st = elim (child_at kids i) [
  | none ↦ none
  | some a ↦ some (define_label is_local (token_of a) st)
]

unfoldable pub analyze_label : Asts → Analysis → Option Analysis
unfolding define_label same_text
analyze_label nil st = none
analyze_label (cons x rest) st =
    if same_text (text_of x) (codes "local")
    then label_at true (cons x rest) 1 st
    else if same_text (text_of x) (codes "global")
    then label_at false (cons x rest) 1 st
    else label_at false (cons x rest) 0 st
