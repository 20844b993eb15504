-- ===== src/Asm/Size/Laws.antt =====
-- The sizes that `get_expression_size` of assembler/include/analyzer.hh gives: a byte or a word.
use anc.Asm.Size.{
  get_expression_size, leaf_size, parsed_size, result_size, size_of_value, unary_size, exceeds,
  text_of, known, negsuc, pos, token_of, AsmError,
}
use anc.Base.{
  ℕ, refl, inl, inr, ◌||◌, Option, none, some, if◌then◌else◌, if_cases, codes, same_text, ℤ, ◌+ℤ◌,
  ◌-ℤ◌, IsWidth,
}
use anc.Asm.Gives.{Gives, Gives-none, Gives-evaluated, Gives-report, Gives-and}
use anc.Asm.Encode.{byte_s, word_s}
use anc.Asm.Eval.{
  ◌*ℤ◌, Stoi, Evaluated, and_value, is_identifier, evaluated, is_number, parse_number, is_zero,
  quotient,
}
use anc.Asm.Tree.{Ast, Token, node, nil, cons, text_of, token_of, AsmError}

abbrev IsSize : Evaluated ℕ → Type 0
IsSize r = Gives IsWidth r

size_of_value-IsSize : (t : Token) (z : ℤ) → IsSize (size_of_value t z)
size_of_value-IsSize t z =
    if_cases IsSize (exceeds z (negsuc 32767) (pos 65535))
      (λ _. Gives-report IsWidth (AsmError.literal_exceeds t) word_s (inr refl))
      λ _.
        Gives-evaluated IsWidth (if exceeds z (negsuc 127) (pos 255) then word_s else byte_s)
          (if_cases IsWidth (exceeds z (negsuc 127) (pos 255)) (λ _. inr refl) λ _. inl refl)

parsed_size-IsSize : (t : Token) (o : Option ℤ) → IsSize (parsed_size t o)
parsed_size-IsSize t none = Gives-none IsWidth
parsed_size-IsSize t (some z) = size_of_value-IsSize t z

unary_size-IsSize : (t : Token) (r : Evaluated ℕ) → IsSize r → IsSize (unary_size t r)
unary_size-IsSize t r sized =
    if_cases IsSize (same_text t.value (codes "byte"))
      (λ _.
        Gives-and IsWidth r (λ _. and_value r (λ _. evaluated byte_s))
          λ _.
            Gives-and IsWidth r (λ _. evaluated byte_s)
              λ _. Gives-evaluated IsWidth byte_s (inl refl))
      λ _.
        if_cases IsSize (same_text t.value (codes "word"))
          (λ _.
            Gives-and IsWidth r (λ _. evaluated word_s)
              λ _. Gives-evaluated IsWidth word_s (inr refl))
          λ _. sized

result_size-IsSize : (t : Token) (a b : ℤ) → IsSize (result_size t a b)
result_size-IsSize t a b =
    if_cases IsSize (same_text t.value (codes "+")) (λ _. size_of_value-IsSize t (a +ℤ b))
      λ _.
        if_cases IsSize (same_text t.value (codes "-")) (λ _. size_of_value-IsSize t (a -ℤ b))
          λ _.
            if_cases IsSize (same_text t.value (codes "*")) (λ _. size_of_value-IsSize t (a *ℤ b))
              λ _.
                if_cases IsSize (is_zero b)
                  (λ _. Gives-report IsWidth (AsmError.division_by_zero t) word_s (inr refl))
                  λ _. size_of_value-IsSize t (quotient a b)

module _ (stoi : Stoi) (address : ℕ) where
  leaf_size-IsSize : (t : Token) → IsSize (leaf_size stoi address t)
  leaf_size-IsSize t =
      if_cases IsSize (is_identifier t.type || same_text t.value (codes "$"))
        (λ _. Gives-evaluated IsWidth word_s (inr refl))
        λ _.
          if_cases IsSize (is_number t.type) (λ _. parsed_size-IsSize t (parse_number stoi t.value))
            λ _. Gives-none IsWidth

  pub get_expression_size-IsSize : (a : Ast) → Gives IsWidth (get_expression_size stoi address a)
  unfolding get_expression_size
  get_expression_size-IsSize (node rule t nil) = leaf_size-IsSize t
  get_expression_size-IsSize (node rule t (cons x nil)) =
      unary_size-IsSize t (get_expression_size stoi address x) (get_expression_size-IsSize x)
  get_expression_size-IsSize (node rule t (cons x (cons y nil))) =
      let is_byte = same_text (text_of x) (codes "byte") in
      Gives-evaluated IsWidth (if is_byte then byte_s else word_s)
        (if_cases IsWidth is_byte (λ _. inl refl) λ _. inr refl)
  get_expression_size-IsSize (node rule t (cons x (cons y (cons z rest)))) =
      Gives-and IsWidth (known stoi address x)
        (λ a. and_value (known stoi address z) (λ b. result_size (token_of y) a b))
        λ a.
          Gives-and IsWidth (known stoi address z) (λ b. result_size (token_of y) a b)
            λ b. result_size-IsSize (token_of y) a b
