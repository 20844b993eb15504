-- ===== src/Asm/Eval.antt =====
-- `parse_number` of assembler/include/types.hh and `eval_expression` of assembler/include/assembler.hh.
-- The values are integers; the source computes in `int`, where an overflow is undefined.
use anc.Base.Int.{pos, negsuc}
use anc.Asm.Tree.{nil, cons, node}
use anc.Asm.Tree.{
  AsmError, Environment, Ast, Label, Token, TokenType, find, Variable, node, cons, token_of,
}
use anc.Base.{
  ℕ, zero, suc, ◌+◌, ◌*◌, ◌/◌, Bool, true, false, not, ◌&&◌, ◌||◌, Option, none, some, List, [],
  ◌∷◌, ◌++◌, ◌==◌, if◌then◌else◌, codes, same_text, length, drop, ℤ, pos_part, neg_part, sub_ℕ,
  ◌+ℤ◌, ◌-ℤ◌,
}

infixl 70 ◌*ℤ◌
abbrev pub ◌*ℤ◌ : ℤ → ℤ → ℤ
a *ℤ b =
    sub_ℕ (pos_part a * pos_part b + neg_part a * neg_part b)
      (pos_part a * neg_part b + neg_part a * pos_part b)

-- Division rounds to zero. The divisor is not zero.
abbrev pub quotient : ℤ → ℤ → ℤ
quotient (pos a) (pos b) = pos (a / b)
quotient (pos a) (negsuc b) = sub_ℕ 0 (a / suc b)
quotient (negsuc a) (pos b) = sub_ℕ 0 (suc a / b)
quotient (negsuc a) (negsuc b) = pos (suc a / suc b)

abbrev pub negated : ℤ → ℤ
negated z = pos 0 -ℤ z

abbrev pub is_zero : ℤ → Bool
is_zero (pos zero) = true
is_zero (pos (suc n)) = false
is_zero (negsuc n) = false

-- A value with the errors that were reported on the way, in order; `none` is an exception of `stoi` or
-- of `parse_number`, or a child that is not there.
abbrev pub Evaluated : Type 0 → Type 0
Evaluated A = Option (A × List AsmError)

abbrev pub evaluated : {A : Type 0} → A → Evaluated A
evaluated a = some (a, [])

abbrev pub after_errors : {A : Type 0} → List AsmError → Evaluated A → Evaluated A
after_errors es none = none
after_errors es (some (a, more)) = some (a, es ++ more)

abbrev pub and_value : {A B : Type 0} → Evaluated A → (A → Evaluated B) → Evaluated B
and_value none go = none
and_value (some (a, es)) go = after_errors es (go a)

abbrev pub report : {A : Type 0} → AsmError → A → Evaluated A
report e a = some (a, e ∷ [])

abbrev starts_with : ℕ → ℕ → List ℕ → Bool
starts_with c d (x ∷ y ∷ rest) = x == c && y == d
starts_with c d _ = false

-- The value if the whole text was used.
abbrev whole : ℕ → Option (ℤ × ℕ) → Option ℤ
whole size none = none
whole size (some (z, used)) = if used == size then some z else none

-- `std::stoi(value, &used, base)`: the number and how many bytes it took, `none` if it throws.
abbrev pub Stoi : Type 0
Stoi = List ℕ → ℕ → Option (ℤ × ℕ)

unfoldable pub parse_number : Stoi → List ℕ → Option ℤ
parse_number stoi value =
    if starts_with 48 98 value || starts_with 48 66 value
    then (let rest = drop 2 value in whole (length rest) (stoi rest 2))
    else if starts_with 48 120 value || starts_with 48 88 value
    then whole (length value) (stoi value 16)
    else whole (length value) (stoi value 10)

-- Where the pass is: `current_address` and `active_label`.
pub record Place : Type 0 where
  pub address : ℕ
  pub active_label : List ℕ

abbrev pub is_identifier : TokenType → Bool
is_identifier TokenType.identifier = true
is_identifier _ = false

abbrev pub is_number : TokenType → Bool
is_number TokenType.number_literal = true
is_number _ = false

abbrev pub unary : Token → Evaluated ℤ → Evaluated ℤ
unary t value =
    if same_text t.value (codes "-") then and_value value (λ z. evaluated (negated z)) else value

abbrev pub divide : Token → ℤ → ℤ → Evaluated ℤ
divide t a b =
    if is_zero b then report (AsmError.division_by_zero t) (pos 0) else evaluated (quotient a b)

-- `second` is looked at for an operator only.
abbrev pub binary : Token → ℤ → Evaluated ℤ → Evaluated ℤ
binary t value second =
    if same_text t.value (codes "+")
    then and_value second (λ z. evaluated (value +ℤ z))
    else if same_text t.value (codes "-")
    then and_value second (λ z. evaluated (value -ℤ z))
    else if same_text t.value (codes "*")
    then and_value second (λ z. evaluated (value *ℤ z))
    else if same_text t.value (codes "/")
    then and_value second (λ z. divide t value z)
    else evaluated value

abbrev pub number : Option ℤ → Evaluated ℤ
number none = none
number (some z) = evaluated z

module _ (stoi : Stoi) (env : Environment) (here : Place) where
  abbrev pub current : ℤ
  current = pos here.address

  -- The module of `current_label()`, empty if there is no such label.
  abbrev current_module : List ℕ
  current_module = elim (find here.active_label env.labels) [ none ↦ [] | some l ↦ l.module_name ]

  abbrev is_hidden : Label → Bool
  is_hidden l = l.is_local && not (same_text current_module l.module_name)

  abbrev address_of_label : Token → Option Label → Evaluated ℤ
  address_of_label t none = report (AsmError.undefined_reference t) current
  address_of_label t (some l) =
      if is_hidden l then report (AsmError.no_access t) current else evaluated (pos l.address)

  abbrev leaf : Token → Evaluated ℤ
  leaf t =
      if same_text t.value (codes "$")
      then evaluated current
      else if is_number t.type
      then number (parse_number stoi t.value)
      else if is_identifier t.type
      then address_of_label t (find t.value env.labels)
      else none

  abbrev size_of_label : Token → Option Label → Evaluated ℤ
  size_of_label t none = report (AsmError.undefined_label t) (pos 0)
  size_of_label t (some l) =
      if is_hidden l then report (AsmError.no_access t) (pos 0) else evaluated (pos l.size)

  abbrev offset_of_variable : Token → Option Variable → Evaluated ℤ
  offset_of_variable t none = report (AsmError.undefined_variable t) (pos 0)
  offset_of_variable t (some v) =
      if not (same_text v.label here.active_label)
      then report (AsmError.undefined_variable t) (pos 0)
      else evaluated (pos v.bp_relative_address)

  -- Two children or more, of which the third, if any, has this value.
  abbrev several : Token → Token → Evaluated ℤ → Evaluated ℤ → Evaluated ℤ → Evaluated ℤ
  several first second one two three =
      if same_text first.value (codes "word") || same_text first.value (codes "byte")
      then two
      else if same_text first.value (codes "sizeof")
      then size_of_label second (find second.value env.labels)
      else if same_text first.value (codes "offset")
      then offset_of_variable second
          (find (here.active_label ++ codes "::" ++ second.value) env.variables)
      else and_value one (λ z. binary second z three)

  unfoldable pub eval_expression : Ast → Evaluated ℤ
  unfolding parse_number same_text
  eval_expression (node rule t nil) = leaf t
  eval_expression (node rule t (cons x nil)) = unary t (eval_expression x)
  eval_expression (node rule t (cons x (cons y nil))) =
      several (token_of x) (token_of y) (eval_expression x) (eval_expression y) none
  eval_expression (node rule t (cons x (cons y (cons z rest)))) =
      several (token_of x) (token_of y) (eval_expression x) (eval_expression y) (eval_expression z)
