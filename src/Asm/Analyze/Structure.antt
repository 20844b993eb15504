-- ===== src/Asm/Analyze/Structure.antt =====
-- `analyze_structure` and `analyze_struct_el` of assembler/include/analyzer.hh.
use anc.Asm.Encode.{word_s, byte_s}
use anc.Base.{ℕ, Option, none, some, List, [], if◌then◌else◌, codes, same_text}
use anc.Asm.Tree.{nil, cons, node, RuleName, Ast, Asts, find, child_at, text_of, rule_of, same_rule}
use anc.Asm.Analyze.State.{Analysis, put}

-- The size of a field, by the text of its type.
abbrev pub type_size : Ast → ℕ
type_size a = if same_text (text_of a) (codes "byte") then byte_s else word_s

abbrev put_field : List ℕ → List ℕ → ℕ → Analysis → Analysis
put_field name field size st =
    let fields : List (List ℕ × ℕ) = elim (find name st.structures) [ none ↦ [] | some fs ↦ fs ] in
    record st { structures = put name (put field size fields) st.structures }

-- `analyze_struct_el`: a field, `:`, its type, and the rest of the fields last. The type is a token,
-- never a structure.
unfoldable mutual
  pub struct_el : List ℕ → Ast → Analysis → Option Analysis
  struct_el name (node rule t nil) st = none
  struct_el name (node rule t (cons field nil)) st = none
  struct_el name (node rule t (cons field (cons colon nil))) st = none
  struct_el name (node rule t (cons field (cons colon (cons type rest)))) st =
      struct_rest name rest (put_field name (text_of field) (type_size type) st)

  pub struct_rest : List ℕ → Asts → Analysis → Option Analysis
  struct_rest name nil st = some st
  struct_rest name (cons a nil) st =
      let more = struct_el name a st in
      if same_rule (rule_of a) RuleName.struct_def then more else some st
  struct_rest name (cons a (cons b rest)) st = struct_rest name (cons b rest) st

unfoldable pub analyze_structure : Asts → Analysis → Option Analysis
unfolding struct_el
analyze_structure kids st = elim (child_at kids 1) [
  | none ↦ none
  | some name ↦ elim (child_at kids 3) [
    | none ↦ none
    | some a ↦
        struct_el (text_of name) a (record st { structures = put (text_of name) [] st.structures })
  ]
]
