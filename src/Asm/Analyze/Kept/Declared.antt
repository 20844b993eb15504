-- ===== src/Asm/Analyze/Kept/Declared.antt =====
-- `analyze_declaration` of assembler/include/analyzer.hh keeps its invariant.
use anc.Asm.Encode.{byte_s, word_s}
use anc.Base.{
  ℕ, ◌+◌, ◌*◌, ◌%◌, ◌≡◌, refl, sym, ap, inl, inr, Option, none, some, List, ltb, ◌==◌,
  if◌then◌else◌, ==_iff, Bool-cases, if_cases, option_cases, codes, same_text,
}
use mathlib.Core.Path.{subst}
use anc.Asm.Analyze.State.{Analysis, complain, is_empty_text, scope_of, as_size}
use anc.Asm.Analyze.Aligned.{Aligned, IsSized, line-Aligned}
use anc.Asm.Dump.{size_of, number_node}
use anc.Asm.Modes.Operand.{variable_key, belongs}
use anc.Asm.Eval.{Stoi}
use anc.Asm.Size.{eval_constant}
use anc.Asm.Tree.{
  nil, cons, Asts, Instruction, Token, find, child_at, text_of, token_of, Ast, AsmError,
}
use anc.Asm.Analyze.Kept.{Keeps, some-Keeps, none-Keeps, noting_any}
use anc.Asm.Encode.{word_s}
use anc.Asm.Analyze.Declare.{
  push_register, push_value, emit_line, make_room, add_size, load_sp, with_variable, initialised,
  assigned, declare, too_large, value_index, element_size, declare_type, declare_name,
  analyze_declaration,
}

-- It is sized unless its size is neither a byte nor a word.
push_value-IsSized : (stoi : Stoi) (a : Ast) (size : ℕ) → IsSized (push_value stoi a size)
unfolding same_text
push_value-IsSized stoi a size =
    let P = λ (n : ℕ). IsSized (push_value stoi a n) in
    elim (Bool-cases (size == byte_s)) [
      | inl h ↦ subst P (sym ((==_iff size 1).0 h)) (inr refl)
      | inr h ↦ elim (Bool-cases (size == word_s)) [
        | inl g ↦ subst P (sym ((==_iff size 2).0 g)) (inr refl)
        | inr g ↦ inl (rw (h, g) refl)
      ]
    ]

module _ (stoi : Stoi) where
  emit_line-Aligned :
      (ins : Instruction) (st : Analysis)
      → IsSized ins × (size_of ins ≡ ins.addr_mode_size + 2)
      → Aligned st
      → Aligned (emit_line stoi ins st)
  emit_line-Aligned ins st (sized, same) p =
      line-Aligned ins st (st.current_address + (ins.addr_mode_size + 2)) sized
        (ap (λ n. st.current_address + n) (sym same)) p

  emit_push-Aligned :
      (a : Ast) (size : ℕ) (st : Analysis)
      → Aligned st
      → Aligned (emit_line stoi (push_value stoi a size) st)
  unfolding same_text
  emit_push-Aligned a size st p =
      emit_line-Aligned (push_value stoi a size) st (push_value-IsSized stoi a size, refl) p

  make_room-Aligned : (size : ℕ) (st : Analysis) → Aligned st → Aligned (make_room stoi size st)
  unfolding same_text
  make_room-Aligned size st p =
      let saved = emit_line stoi (push_register stoi (codes "trsp")) st in
      let added = emit_line stoi (add_size stoi size) saved in
      emit_line-Aligned (load_sp stoi size) added (inr refl, refl)
        (emit_line-Aligned (add_size stoi size) saved (inr refl, refl)
          (emit_line-Aligned (push_register stoi (codes "trsp")) st (inr refl, refl) p))

  initialised-Aligned :
      (size : ℕ) (value : Option Ast) (st : Analysis)
      → Aligned st
      → Aligned (initialised stoi size value st)
  initialised-Aligned size none st p =
      if_cases Aligned (ltb word_s size) (λ _. make_room-Aligned size st p)
        λ _. emit_push-Aligned (number_node 0) size st p
  initialised-Aligned size (some a) st p = emit_push-Aligned a size st p

  assigned-Keeps :
      (key : List ℕ) (size : ℕ) (t : Token) (value : Option Ast) (st : Analysis)
      → Aligned st
      → Keeps (assigned stoi key size t value st)
  assigned-Keeps key size t none st p = none-Keeps
  assigned-Keeps key size t (some a) st p =
      noting_any (eval_constant stoi st.current_address a) st _ p λ z noted q.
        let warned =
          if too_large stoi size z
          then complain (AsmError.value_exceeds_variable t) noted
          else noted in
        let kept : Aligned warned = if_cases Aligned (too_large stoi size z) (λ _. q) λ _. q in
        some-Keeps _ (initialised-Aligned size (some a) (with_variable stoi key size warned) kept)

  declare-Keeps :
      (kids : Asts) (i : ℕ) (key : List ℕ) (size : ℕ) (st : Analysis)
      → Aligned st
      → Keeps (declare stoi kids i key size st)
  declare-Keeps kids i key size st p =
      let at = value_index stoi kids i in
      option_cases Keeps (child_at kids at)
        (λ _. some-Keeps _ (initialised-Aligned size none (with_variable stoi key size st) p))
        λ t _. assigned-Keeps key size (token_of t) (child_at kids (at + 1)) st p

  declare_type-Keeps :
      (kids : Asts) (i : ℕ) (key : List ℕ) (times : ℕ) (st : Analysis)
      → Aligned st
      → Keeps (declare_type stoi kids i key times st)
  declare_type-Keeps kids i key times st p =
      option_cases Keeps (child_at kids i) (λ _. none-Keeps)
        λ a _.
          option_cases Keeps (element_size stoi a st) (λ _. some-Keeps _ p)
            λ size _. declare-Keeps kids (i + 1) key (times * size % 0x10000000000000000) st p

  declare_name-Keeps :
      (kids : Asts) (name sort : Ast) (st : Analysis)
      → Aligned st
      → Keeps (declare_name stoi kids name sort st)
  declare_name-Keeps kids name sort st p =
      let key = variable_key (scope_of st) (text_of name) in
      if_cases Keeps (belongs (scope_of st) (find key st.variables)) (λ _. some-Keeps _ p)
        λ _.
          if_cases Keeps (same_text (text_of sort) (codes "["))
            (λ _.
              option_cases Keeps (child_at kids 4) (λ _. none-Keeps)
                λ n _.
                  noting_any (eval_constant stoi st.current_address n) st _ p
                    λ z noted q. declare_type-Keeps kids 5 key (as_size z) noted q)
            λ _. declare_type-Keeps kids 3 key 1 st p

  pub analyze_declaration-Keeps :
      (kids : Asts) (st : Analysis) → Aligned st → Keeps (analyze_declaration stoi kids st)
  unfolding analyze_declaration
  analyze_declaration-Keeps nil st p = none-Keeps
  analyze_declaration-Keeps (cons word kids) st p =
      if_cases Keeps (is_empty_text st.current_label) (λ _. some-Keeps _ p)
        λ _.
          option_cases Keeps (child_at kids 0) (λ _. none-Keeps)
            λ name _.
              option_cases Keeps (child_at kids 2) (λ _. none-Keeps)
                λ sort _. declare_name-Keeps (cons word kids) name sort st p
