-- ===== src/Asm/Analyze/Declare.antt =====
-- `analyze_declaration` of assembler/include/analyzer.hh.
use anc.Asm.Size.{eval_constant}
use anc.Asm.Encode.{word_s}
use anc.Asm.Dump.{number_node}
use anc.Asm.Modes.Operand.{belongs, blank, variable_key}
use anc.Asm.Eval.{Stoi, is_identifier}
use anc.Base.{
  ℕ, ◌+◌, ◌-◌, ◌*◌, ◌%◌, ◌^◌, Bool, ◌&&◌, ◌||◌, Option, none, some, List, [], ◌∷◌, ltb, leb, ◌==◌,
  if◌then◌else◌, codes, same_text, ℤ, pos_part, neg_part,
}
use anc.Asm.Tree.{
  nil, cons, node, RuleName, TokenType, AddressingMode, AsmError, Ast, Instruction, Token, Asts,
  find, child_at, text_of, token_of,
}
use anc.Asm.Analyze.State.{
  Analysis, advance_by, as_size, complain, is_empty_text, noting, push_instruction, put, scope_of,
}
use anc.Asm.Analyze.Structure.{type_size}

module _ (stoi : Stoi) where
  abbrev pub total_size : List (List ℕ × ℕ) → ℕ
  total_size [] = 0
  total_size ((field, size) ∷ rest) = size + total_size rest

  -- The size of one element of a declaration, `none` for a structure that is not there.
  abbrev pub element_size : Ast → Analysis → Option ℕ
  element_size a st =
      if is_identifier (token_of a).type
      then elim (find (text_of a) st.structures) [ none ↦ none | some fs ↦ some (total_size fs) ]
      else some (type_size a)

  -- `res >= pow(2, 8 * size) || res < -pow(2, 8 * size - 1)`; every `int` fits in four bytes.
  abbrev pub too_large : ℕ → ℤ → Bool
  too_large size z =
      ltb size 4
      && (leb (2 ^ (8 * size) + neg_part z) (pos_part z)
          || ltb (2 ^ (8 * size - 1)) (neg_part z) && ltb 0 size)

  abbrev pub push_register : List ℕ → Instruction
  push_register name = record (blank AddressingMode.register_access_mode 0) {
    op1 = some (
        node RuleName.none_rule
          (record { value = codes "r0"; type = TokenType.register; module_name = [] }) nil);
    instruction = name;
  }

  abbrev pub push_value : Ast → ℕ → Instruction
  push_value a size =
      record (blank
        (if size == word_s then AddressingMode.immediate_word else AddressingMode.immediate_byte)
        size) { op1 = some a; instruction = codes "push" }

  abbrev pub emit_line : Instruction → Analysis → Analysis
  emit_line ins st = advance_by (ins.addr_mode_size + word_s) (push_instruction ins st)

  abbrev pub add_size : ℕ → Instruction
  add_size size = record (push_register (codes "add")) {
    addressing_mode = AddressingMode.immediate_to_register;
    op2 = some (number_node size);
    addr_mode_size = word_s;
  }

  -- The second operand stays there.
  abbrev pub load_sp : ℕ → Instruction
  load_sp size = record (push_register (codes "ldsp")) { op2 = some (number_node size) }

  -- A variable of more than a word takes its space by moving SP.
  abbrev pub make_room : ℕ → Analysis → Analysis
  make_room size st =
      let saved = emit_line (push_register (codes "trsp")) st in
      emit_line (load_sp size) (emit_line (add_size size) saved)

  abbrev pub initialised : ℕ → Option Ast → Analysis → Analysis
  initialised size none st =
      if ltb word_s size then make_room size st else emit_line (push_value (number_node 0) size) st
  initialised size (some a) st = emit_line (push_value a size) st

  abbrev pub with_variable : List ℕ → ℕ → Analysis → Analysis
  with_variable key size st = record st {
    variables =
        put key (record { bp_relative_address = st.bp_relative_address; label = st.current_label })
          st.variables;
    bp_relative_address = st.bp_relative_address + size;
  }

  abbrev pub new_variable : List ℕ → ℕ → Option Ast → Analysis → Analysis
  new_variable key size value st = initialised size value (with_variable key size st)

  -- `]` behind the type of an array is passed over. Then `=` and the value, if they are there.
  abbrev pub value_index : Asts → ℕ → ℕ
  value_index kids i = elim (child_at kids i) [
    | none ↦ i
    | some a ↦ if same_text (text_of a) (codes "]") then i + 1 else i
  ]

  abbrev pub assigned : List ℕ → ℕ → Token → Option Ast → Analysis → Option Analysis
  assigned key size t none st = none
  assigned key size t (some a) st = noting (eval_constant stoi st.current_address a) st (λ z noted.
      some (
        new_variable key size (some a)
          (if too_large size z then complain (AsmError.value_exceeds_variable t) noted else noted)))

  abbrev pub declare : Asts → ℕ → List ℕ → ℕ → Analysis → Option Analysis
  declare kids i key size st =
      let at = value_index kids i in
      elim (child_at kids at) [
        | none ↦ some (new_variable key size none st)
        | some t ↦ assigned key size (token_of t) (child_at kids (at + 1)) st
      ]

  -- The declaration from its type on, for so many elements.
  abbrev pub declare_type : Asts → ℕ → List ℕ → ℕ → Analysis → Option Analysis
  declare_type kids i key times st = elim (child_at kids i) [
    | none ↦ none
    | some a ↦ elim (element_size a st) [
      | none ↦ some (complain (AsmError.undefined_structure (token_of a)) st)
      | some size ↦ declare kids (i + 1) key (times * size % 0x10000000000000000) st
    ]
  ]

  abbrev pub declare_name : Asts → Ast → Ast → Analysis → Option Analysis
  declare_name kids name sort st =
      let key = variable_key (scope_of st) (text_of name) in
      if belongs (scope_of st) (find key st.variables)
      then some (complain (AsmError.redefinition (token_of name)) st)
      else if same_text (text_of sort) (codes "[")
      then elim (child_at kids 4) [
        | none ↦ none
        | some n ↦
            noting (eval_constant stoi st.current_address n) st
              (λ z noted. declare_type kids 5 key (as_size z) noted)
      ]
      else declare_type kids 3 key 1 st

  unfoldable pub analyze_declaration : Asts → Analysis → Option Analysis
  unfolding eval_constant same_text
  analyze_declaration nil st = none
  analyze_declaration (cons word kids) st =
      if is_empty_text st.current_label
      then some (complain (AsmError.var_outside_label (token_of word)) st)
      else elim (child_at kids 0) [
        | none ↦ none
        | some name ↦ elim (child_at kids 2) [
          | none ↦ none
          | some sort ↦ declare_name (cons word kids) name sort st
        ]
      ]
