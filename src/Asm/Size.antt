-- ===== src/Asm/Size.antt =====
-- The values and the sizes of expressions as the analyzer knows them, before the labels have addresses:
-- `eval_expression`, `is_evaluable` and `get_expression_size` of assembler/include/analyzer.hh.
pub mod Laws
use anc.Asm.Encode.{byte_s, word_s}
use anc.Asm.Eval.{
  Stoi, Evaluated, is_identifier, parse_number, and_value, evaluated, is_zero, report, unary, ◌*ℤ◌,
  binary, is_number, number, quotient,
}
use anc.Base.{
  ℕ, Bool, true, false, ◌&&◌, ◌||◌, Option, none, some, if◌then◌else◌, codes, same_text, ℤ, ◌+ℤ◌,
  ◌-ℤ◌, ltb_ℤ,
}
use anc.Base.Int.{pos, negsuc}
use anc.Asm.Tree.{nil, cons, node, AsmError, Ast, Token, TokenType, token_of, text_of}

abbrev is_type : TokenType → Bool
is_type TokenType.type = true
is_type _ = false

-- What a token that cannot be evaluated yet is reported as; the value is then -1.
abbrev pub unresolved : Token → Option AsmError
unresolved t =
    if same_text t.value (codes "sizeof")
    then some (AsmError.unresolved_size t)
    else if same_text t.value (codes "offset")
    then some (AsmError.unresolved_offset t)
    else if is_identifier t.type
    then some (AsmError.unresolved_address t)
    else if is_type t.type
    then some (AsmError.unexpected_type t)
    else none

abbrev resolved : Option AsmError → Evaluated ℤ → Evaluated ℤ
resolved none r = r
resolved (some e) r = report e (negsuc 0)

abbrev is_cast : Token → Bool
is_cast t = same_text t.value (codes "word") || same_text t.value (codes "byte")

unfoldable pub is_evaluable : Ast → Bool
unfolding same_text
is_evaluable (node rule t nil) = elim (unresolved t) [ none ↦ true | some e ↦ false ]
is_evaluable (node rule t (cons x nil)) =
    let one = is_evaluable x in elim (unresolved t) [ none ↦ one | some e ↦ false ]
is_evaluable (node rule t (cons x (cons y nil))) =
    let two = is_evaluable y in
    elim (unresolved t) [ none ↦ is_cast (token_of x) && two | some e ↦ false ]
is_evaluable (node rule t (cons x (cons y (cons z nil)))) =
    let both = is_evaluable x && is_evaluable z in
    elim (unresolved t) [ none ↦ both | some e ↦ false ]
is_evaluable (node rule t (cons x (cons y (cons z (cons w rest))))) = false

-- The sizes that a value of 16 bits has.
abbrev pub exceeds : ℤ → ℤ → ℤ → Bool
exceeds z low high = ltb_ℤ high z || ltb_ℤ z low

abbrev pub size_of_value : Token → ℤ → Evaluated ℕ
size_of_value t z =
    if exceeds z (negsuc 32767) (pos 65535)
    then report (AsmError.literal_exceeds t) word_s
    else evaluated (if exceeds z (negsuc 127) (pos 255) then word_s else byte_s)

abbrev pub quotient_size : Token → ℤ → ℤ → Evaluated ℕ
quotient_size t a b =
    if is_zero b
    then report (AsmError.division_by_zero t) word_s
    else size_of_value t (quotient a b)

-- Any other operator is taken for a division.
abbrev pub result_size : Token → ℤ → ℤ → Evaluated ℕ
result_size t a b =
    if same_text t.value (codes "+")
    then size_of_value t (a +ℤ b)
    else if same_text t.value (codes "-")
    then size_of_value t (a -ℤ b)
    else if same_text t.value (codes "*")
    then size_of_value t (a *ℤ b)
    else quotient_size t a b

abbrev pub parsed_size : Token → Option ℤ → Evaluated ℕ
parsed_size t none = none
parsed_size t (some z) = size_of_value t z

-- For `byte` the size of the child is computed twice, with its errors.
abbrev pub unary_size : Token → Evaluated ℕ → Evaluated ℕ
unary_size t size =
    if same_text t.value (codes "byte")
    then and_value size (λ _. and_value size (λ _. evaluated byte_s))
    else if same_text t.value (codes "word")
    then and_value size (λ _. evaluated word_s)
    else size

module _ (stoi : Stoi) (address : ℕ) where
  abbrev constant : Token → Evaluated ℤ
  constant t =
      if same_text t.value (codes "$")
      then evaluated (pos address)
      else if is_number t.type
      then number (parse_number stoi t.value)
      else none

  -- `eval_expression` of the analyzer.
  unfoldable pub eval_constant : Ast → Evaluated ℤ
  unfolding same_text parse_number
  eval_constant (node rule t nil) = resolved (unresolved t) (constant t)
  eval_constant (node rule t (cons x nil)) = resolved (unresolved t) (unary t (eval_constant x))
  eval_constant (node rule t (cons x (cons y nil))) =
      let one = eval_constant x in
      let two = eval_constant y in
      resolved (unresolved t)
        (if is_cast (token_of x) then two else and_value one (λ z. binary (token_of y) z none))
  eval_constant (node rule t (cons x (cons y (cons z rest)))) =
      let one = eval_constant x in
      let three = eval_constant z in
      resolved (unresolved t) (and_value one (λ v. binary (token_of y) v three))

  -- A child's value, 0xff where it is not known yet.
  abbrev pub known : Ast → Evaluated ℤ
  known a = let value = eval_constant a in if is_evaluable a then value else evaluated (pos 255)

  abbrev pub leaf_size : Token → Evaluated ℕ
  leaf_size t =
      if is_identifier t.type || same_text t.value (codes "$")
      then evaluated word_s
      else if is_number t.type
      then parsed_size t (parse_number stoi t.value)
      else none

  unfoldable pub get_expression_size : Ast → Evaluated ℕ
  unfolding eval_constant is_evaluable parse_number same_text
  get_expression_size (node rule t nil) = leaf_size t
  get_expression_size (node rule t (cons x nil)) = unary_size t (get_expression_size x)
  get_expression_size (node rule t (cons x (cons y nil))) =
      evaluated (if same_text (text_of x) (codes "byte") then byte_s else word_s)
  get_expression_size (node rule t (cons x (cons y (cons z rest)))) =
      and_value (known x) (λ a. and_value (known z) (λ b. result_size (token_of y) a b))
