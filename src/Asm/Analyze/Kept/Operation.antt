-- ===== src/Asm/Analyze/Kept/Operation.antt =====
-- `analyze_instruction` and `analyze_origin` of assembler/include/analyzer.hh keep its invariant.
use anc.Asm.Encode.{word_s}
use anc.Asm.Dump.Split.{total}
use anc.Base.{
  ℕ, ◌+◌, ◌-◌, ◌≡◌, refl, sym, ap, ◌∙◌, ◌⊎◌, inl, inr, Bool, true, false, not, ◌&&◌, ◌||◌, List, [],
  ◌∷◌, arith, ltb, ◌==◌, if◌then◌else◌, ==_iff, Bool-cases, if_cases, codes, same_text,
}
use mathlib.Core.Path.{subst}
use anc.Asm.Analyze.State.{Analysis, scope_of}
use anc.Asm.Analyze.Line.{
  supports, jump_sized, admit_instruction, analyze_instruction, set_origin, analyze_origin, is_full,
  is_indexed_store, is_register_pair,
}
use anc.Asm.Analyze.Aligned.{contrary, Aligned, IsSized, line-Aligned}
use anc.Asm.Dump.{is_data, is_jump, is_immediate, size_of}
use anc.Asm.Dump.Length.{operation_size}
use anc.Asm.Dump.Accepted.{second_branch}
use anc.Asm.Modes.Sized.{IsFit, get_instruction-AllFit, fit_size}
use anc.Asm.Modes.Operand.{blank}
use anc.Asm.Modes.{get_instruction}
use anc.Asm.Eval.{Stoi}
use anc.Asm.Size.{eval_constant}
use anc.Asm.Tree.{nil, cons, AddressingMode, Asts, Instruction, Token, text_of, token_of}
use anc.Asm.Analyze.Kept.{Keeps, some-Keeps, none-Keeps, noting-Keeps, noting_any}
use anc.Asm.Analyze.State.{as_size}

both_true : (a b : Bool) → a && b ≡ true → (a ≡ true) × (b ≡ true)
both_true true b h = (refl, h)
both_true false b h = cc

or_true : (a b : Bool) → a || b ≡ true → (a ≡ true) ⊎ (b ≡ true)
or_true true b h = inl refl
or_true false b h = inr h

first_branch : (b : Bool) (x y : ℕ) → b ≡ true → (if b then x else y) ≡ x
first_branch true x y h = refl
first_branch false x y h = cc

double_not : (b : Bool) → not b ≡ false → b ≡ true
double_not true h = refl
double_not false h = cc

same_text-equal : (xs ys : List ℕ) → same_text xs ys ≡ true → xs ≡ ys
unfolding same_text
same_text-equal [] [] h = refl
same_text-equal [] (y ∷ ys) h = cc
same_text-equal (x ∷ xs) [] h = cc
same_text-equal (x ∷ xs) (y ∷ ys) h =
    let (first, rest) = both_true (x == y) (same_text xs ys) h in
    ap (λ z. z ∷ xs) ((==_iff x y).0 first) ∙ ap (λ zs. y ∷ zs) (same_text-equal xs ys rest)

abbrev Unsupported : List ℕ → Type 0
Unsupported text = (mode : AddressingMode) → supports text mode ≡ false

reserve-Unsupported : Unsupported (codes "reserve")
unfolding supports
reserve-Unsupported mode = refl

string-Unsupported : Unsupported (codes "string")
unfolding supports
string-Unsupported mode = refl

expression-Unsupported : Unsupported (codes "expression")
unfolding supports
expression-Unsupported mode = refl

named : (text word : List ℕ) → Unsupported word → same_text text word ≡ true → Unsupported text
named text word u h = subst Unsupported (sym (same_text-equal text word h)) u

data-Unsupported : (text : List ℕ) → is_data text ≡ true → Unsupported text
data-Unsupported text h = elim (or_true _ _ h) [
  | inl a ↦ named text (codes "reserve") reserve-Unsupported a
  | inr rest ↦ elim (or_true _ _ rest) [
    | inl b ↦ named text (codes "string") string-Unsupported b
    | inr c ↦ named text (codes "expression") expression-Unsupported c
  ]
]

-- What the processor knows is not data.
supported_operation :
    (text : List ℕ) (mode : AddressingMode) → supports text mode ≡ true → is_data text ≡ false
supported_operation text mode h = elim (Bool-cases (is_data text)) [
  | inr d ↦ d
  | inl d ↦ absurd (contrary (supports text mode) h (data-Unsupported text d mode))
]

-- A line of an operation with the size of its arguments.
abbrev IsLine : Instruction → Type 0
IsLine ins = (is_data ins.instruction ≡ false) × (ins.addr_mode_size ≡ operation_size ins)

pub line_size :
    (ins : Instruction) → is_data ins.instruction ≡ false → size_of ins ≡ ins.addr_mode_size + 2
line_size ins op = second_branch (is_data ins.instruction) _ _ op

pub IsLine-IsSized : (ins : Instruction) → IsLine ins → IsSized ins
IsLine-IsSized ins (op, fits) =
    inr (
      line_size ins op
      ∙ ap (λ n. n + 2) fits
      ∙ sym (second_branch (is_data ins.instruction) _ _ op))

jump_sized-IsLine :
    (ins : Instruction) → is_data ins.instruction ≡ false → IsFit ins → IsLine (jump_sized ins)
jump_sized-IsLine ins op fits =
    let b = is_jump ins.instruction && is_immediate ins.addressing_mode in
    if_cases IsLine b
      (λ h. (op, sym (first_branch b 2 (fit_size (record ins { addr_mode_size = word_s })) h)))
      λ h. (op, fits ∙ sym (second_branch b 2 (fit_size ins) h))

admit_instruction-Aligned :
    (t : Token) (ins : Instruction) (st : Analysis)
    → IsFit ins
    → Aligned st
    → Aligned (admit_instruction t ins st)
unfolding admit_instruction
admit_instruction-Aligned t ins st fits p =
    let sized = jump_sized ins in
    if_cases Aligned (not (supports ins.instruction ins.addressing_mode)) (λ _. p)
      λ known.
        if_cases Aligned (is_indexed_store ins.addressing_mode && not (sized.addr_mode_size == 3))
          (λ _. p)
          λ _.
            if_cases Aligned
              (is_register_pair ins.addressing_mode && not (is_full ins.op1 && is_full ins.op2))
              (λ _. p)
              λ _.
                let op =
                  supported_operation ins.instruction ins.addressing_mode
                    (double_not (supports ins.instruction ins.addressing_mode) known) in
                let is_line = jump_sized-IsLine ins op fits in
                let (still, _) = is_line in
                let counted = line_size sized still in
                line-Aligned sized st _ (IsLine-IsSized sized is_line)
                  (ap (λ n. st.current_address + n) (sym counted)) p

-- Space for so many bytes.
abbrev pub reserved : ℕ → Instruction
reserved size = record (blank AddressingMode.implied_mode size) { instruction = codes "reserve" }

reserved_size : (size : ℕ) → size_of (reserved size) ≡ size
unfolding same_text
reserved_size size = refl

pub reserved-IsSized : (size : ℕ) → IsSized (reserved size)
unfolding same_text
reserved-IsSized size = inr refl

reserved_end :
    (address value : ℕ)
    → ltb value address ≡ false
    → value ≡ address + size_of (reserved (value - address))
reserved_end address value h = let size = reserved_size (value - address) in ground arith

same_address :
    (address value n : ℕ)
    → ltb value address ≡ false
    → ltb 0 (value - address) ≡ false
    → address ≡ n
    → value ≡ n
same_address address value n low none_left counted = ground arith

module _ (stoi : Stoi) where
  pub analyze_instruction-Keeps :
      (kids : Asts) (st : Analysis) → Aligned st → Keeps (analyze_instruction stoi kids st)
  unfolding analyze_instruction
  analyze_instruction-Keeps nil st p = none-Keeps
  analyze_instruction-Keeps (cons x nil) st p =
      let ins : Instruction = record (blank AddressingMode.implied_mode 0) {
        instruction = text_of x;
      } in
      some-Keeps _ (admit_instruction-Aligned (token_of x) ins st refl p)
  analyze_instruction-Keeps (cons x (cons y rest)) st p =
      noting-Keeps IsFit (get_instruction stoi (scope_of st) y) st _
        (get_instruction-AllFit stoi (scope_of st) y) p
        λ ins noted fits q. some-Keeps _ (
          admit_instruction-Aligned (token_of x) (record ins { instruction = text_of x }) noted fits
            q)

  set_origin-Aligned :
      (org t : Token) (value : ℕ) (st : Analysis)
      → Aligned st
      → Aligned (set_origin stoi org t value st)
  set_origin-Aligned org t value st p =
      let space = reserved (value - st.current_address) in
      if_cases Aligned (ltb 65535 value) (λ _. p)
        λ _.
          if_cases Aligned (ltb value st.current_address) (λ _. p)
            λ low.
              if_cases Aligned (ltb 0 (value - st.current_address))
                (λ _.
                  line-Aligned space st value (reserved-IsSized (value - st.current_address))
                    (reserved_end st.current_address value low) p)
                λ none_left.
                  let (counted, all, placed) = p in
                  (
                    same_address st.current_address value (total st.instructions) low none_left
                        counted,
                    all,
                    placed,
                  )

  pub analyze_origin-Keeps :
      (kids : Asts) (st : Analysis) → Aligned st → Keeps (analyze_origin stoi kids st)
  unfolding analyze_origin
  analyze_origin-Keeps nil st p = none-Keeps
  analyze_origin-Keeps (cons org nil) st p = none-Keeps
  analyze_origin-Keeps (cons org (cons x rest)) st p =
      noting_any (eval_constant stoi st.current_address x) st _ p λ z noted q.
        some-Keeps _ (set_origin-Aligned (token_of org) (token_of x) (as_size z) noted q)
