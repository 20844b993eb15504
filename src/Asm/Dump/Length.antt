-- ===== src/Asm/Dump/Length.antt =====
-- How many bytes `dump_instruction` of assembler/include/assembler.hh emits.
use anc.Isa.Encoding.{decode}
use anc.Isa.Opcode.{of_code}
use anc.Disasm.{accepts}
use anc.Asm.Dump.{
  is_relative_to_pc, byte_s, byte_bytes, dump_data, dump_operation, emit, emit_built, for_jump,
  is_data, is_jump, to_target, unquoted, word_s, zero_bytes, accepts, is_immediate, pos,
  text_or_empty, word_bytes, id_in, is_register, number_node, of_code, decode, AsmError,
  index_token, build_addressing_mode, isa_code, dump_instruction,
}
use anc.Base.{
  ℕ, zero, suc, ◌+◌, ◌-◌, ◌≤◌, ◌≡◌, refl, sym, ap, ◌∙◌, ◌⊎◌, inl, inr, Bool, true, false, not, ◌&&◌,
  ◌||◌, Option, none, some, List, [], ◌∷◌, arith, ◌==◌, if◌then◌else◌, if_cases, codes, same_text,
  length, take, ℤ, ◌-ℤ◌, out_of_range,
}
use anc.Asm.Gives.{Gives, Gives-none, Gives-evaluated, Gives-and, Gives-report}
use anc.Asm.Encode.{
  get_arguments, low_bits, value_at, byte_s, byte_bytes, word_s, word_bytes, is_low,
  build_addressing_mode,
}
use anc.Asm.Encode.Length.{HasLength, arguments_size, get_arguments-HasLength, either_length}
use anc.Asm.Modes.Sized.{fit_size}
use anc.Asm.Dump.Accepted.{
  and_value-silent, dump_operation_lem, reported, value_of, dump_instruction_lem,
}
use anc.Asm.Eval.{Stoi, Evaluated, Place}
use anc.Asm.Tree.{AddressingMode, Environment, Instruction, Token, AsmError}

relative_size :
    (m : AddressingMode) (size : ℕ) (low : Bool)
    → is_relative_to_pc m ≡ true
    → arguments_size m size low ≡ byte_s
relative_size AddressingMode.memory_relative_to_pc size low h = refl
relative_size _ size low h = cc

jump_size : (j i : Bool) (a b : ℕ) → j ≡ true → i ≡ true → (if j && i then a else b) ≡ a
jump_size true true a b g h = refl
jump_size true false a b g h = cc
jump_size false i a b g h = cc

other_size : (j i : Bool) (a b : ℕ) → (j ≡ false) ⊎ (i ≡ false) → (if j && i then a else b) ≡ b
other_size true true a b (inl h) = cc
other_size true true a b (inr h) = cc
other_size true false a b h = refl
other_size false i a b h = refl

-- The arguments of an operation; a jump to an immediate has an address.
abbrev pub operation_size : Instruction → ℕ
operation_size ins =
    if is_jump ins.instruction && is_immediate ins.addressing_mode then word_s else fit_size ins

abbrev pub data_size : Instruction → ℕ
data_size ins =
    if same_text ins.instruction (codes "reserve")
    then ins.addr_mode_size
    else if same_text ins.instruction (codes "expression")
    then (if ins.addr_mode_size == byte_s then byte_s else word_s)
    else length (text_or_empty ins.op1) - 2

abbrev pub emitted : Instruction → ℕ
emitted ins = if is_data ins.instruction then data_size ins else operation_size ins + word_s

length-zero_bytes : (n : ℕ) → length (zero_bytes n) ≡ n
length-zero_bytes zero = refl
length-zero_bytes (suc n) = ap suc (length-zero_bytes n)

length-take : (n : ℕ) (xs : List ℕ) → n ≤ length xs → length (take n xs) ≡ n
length-take zero xs h = refl
length-take (suc n) [] h = absurd (omega arith)
length-take (suc n) (x ∷ xs) h = let rest = length-take n xs (omega arith) in omega arith

unquoted-HasLength : (text : List ℕ) → HasLength (length text - 2) (unquoted text)
unquoted-HasLength [] = Gives-none (λ xs. length xs ≡ 0)
unquoted-HasLength (c ∷ cs) =
    Gives-evaluated (λ xs. length xs ≡ length (c ∷ cs) - 2) (take (length cs - 1) cs)
      (let taken = length-take (length cs - 1) cs (omega arith) in omega arith)

value_length :
    (b : Bool) (z : ℤ)
    → length (if b then byte_bytes z else word_bytes z) ≡ (if b then byte_s else word_s)
value_length true z = refl
value_length false z = refl

either_case :
    {A B : Type 0} (P : A → B → Type 0) (b : Bool) (n k : A) (x y : B)
    → P n x
    → P k y
    → P (if b then n else k) (if b then x else y)
either_case P true n k x y p q = p
either_case P false n k x y p q = q

module _ (stoi : Stoi) (env : Environment) where
  length-emit :
      (addr opc : ℕ) (token : Token) (args xs : List ℕ)
      → emit addr opc token args ≡ some (xs, [])
      → length xs ≡ length args + 2
  unfolding emit
  length-emit addr opc token args xs =
      if_cases (λ (r : Evaluated (List ℕ)). r ≡ some (xs, []) → length xs ≡ length args + 2)
        (not (accepts (of_code opc) (decode addr)) || not (length args == (decode addr).size))
        (λ _ h. absurd (reported (AsmError.invalid_operand token) [] xs h))
        λ _ h. let same = ap length (value_of (addr ∷ opc ∷ args) xs h) in omega arith

  length-emit_built :
      (addr : Option ℕ) (opc : ℕ) (token : Token) (args xs : List ℕ)
      → emit_built addr opc token args ≡ some (xs, [])
      → length xs ≡ length args + 2
  unfolding emit_built
  length-emit_built none opc token args xs = λ h. cc
  length-emit_built (some addr) opc token args xs = length-emit addr opc token args xs

  length-dump_operation :
      (here : Place) (ins : Instruction) (xs : List ℕ)
      → dump_operation stoi env here ins ≡ some (xs, [])
      → length xs ≡ fit_size ins + 2
  length-dump_operation here ins xs = rw (dump_operation_lem stoi env here ins) (
      if_cases (λ (r : Evaluated (List ℕ)). r ≡ some (xs, []) → length xs ≡ fit_size ins + 2)
        (is_register ins.index && ins.minus)
        (λ _ h. absurd (reported (AsmError.register_subtraction (index_token ins.index)) [] xs h))
        λ _ h.
          let (args, e, emitted) = and_value-silent (get_arguments stoi env here ins) _ xs h in
          let counted = get_arguments-HasLength stoi env here ins args [] e in
          let longer =
            length-emit_built (build_addressing_mode ins) (isa_code ins.instruction)
              (index_token ins.op1) args xs emitted in
          omega arith)

  dump_data-HasLength :
      (here : Place) (ins : Instruction) → HasLength (data_size ins) (dump_data stoi env here ins)
  dump_data-HasLength here ins =
      either_length (same_text ins.instruction (codes "reserve")) ins.addr_mode_size _ _ _
        (Gives-evaluated _ (zero_bytes ins.addr_mode_size) (length-zero_bytes ins.addr_mode_size))
        (either_length (same_text ins.instruction (codes "expression")) _ _ _ _
          (Gives-and _ (value_at stoi env here ins.op1) _
            λ z. Gives-evaluated _ _ (value_length (ins.addr_mode_size == byte_s) z))
          (unquoted-HasLength (text_or_empty ins.op1)))

  -- The distance takes a byte, whatever it is.
  to_target_size :
      (here : Place) (ins : Instruction)
      → is_relative_to_pc ins.addressing_mode ≡ true
      → {n : ℕ} → fit_size ins ≡ n
      → (id : Option Token) (z : ℤ)
      → Gives (λ jump. fit_size jump ≡ n) (to_target stoi env here ins id z)
  to_target_size here ins r {n} h none z = Gives-evaluated (λ jump. fit_size jump ≡ n) ins h
  to_target_size here ins r {n} h (some id) z =
      let distance = z -ℤ pos here.address -ℤ pos 3 in
      let short : Instruction = record ins { op1 = some (number_node (low_bits 256 distance)) } in
      let same : fit_size short ≡ n =
        relative_size ins.addressing_mode ins.addr_mode_size (is_low short.op1) r
        ∙ sym (relative_size ins.addressing_mode ins.addr_mode_size (is_low ins.op1) r)
        ∙ h in
      if_cases (Gives (λ jump. fit_size jump ≡ n)) (out_of_range 1 distance)
        (λ _. Gives-report (λ jump. fit_size jump ≡ n) (AsmError.exceeds_signed_byte id) short same)
        λ _. Gives-evaluated (λ jump. fit_size jump ≡ n) short same

  for_jump_size :
      (here : Place) (ins : Instruction)
      → Gives (λ jump. fit_size jump ≡ operation_size ins) (for_jump stoi env here ins)
  for_jump_size here ins =
      let P = λ (jump : Instruction). fit_size jump ≡ operation_size ins in
      let other =
        other_size (is_jump ins.instruction) (is_immediate ins.addressing_mode) word_s
          (fit_size ins) in
      if_cases (Gives P) (is_jump ins.instruction)
        (λ j.
          if_cases (Gives P) (is_immediate ins.addressing_mode)
            (λ i. Gives-evaluated P _ (sym (jump_size _ _ word_s (fit_size ins) j i)))
            λ i.
              if_cases (Gives P) (is_relative_to_pc ins.addressing_mode)
                (λ r.
                  Gives-and P (value_at stoi env here ins.op1) _
                    λ z. to_target_size here ins r (sym (other (inr i))) (id_in ins.op1) z)
                λ _. Gives-evaluated P ins (sym (other (inr i))))
        λ j. Gives-evaluated P ins (sym (other (inl j)))

  pub length-dump_instruction :
      (here : Place) (ins : Instruction) (xs : List ℕ)
      → dump_instruction stoi env here ins ≡ some (xs, [])
      → length xs ≡ emitted ins
  length-dump_instruction here ins xs =
      let P = λ (n : ℕ) (r : Evaluated (List ℕ)). r ≡ some (xs, []) → length xs ≡ n in
      rw (dump_instruction_lem stoi env here ins) (
        either_case P (is_data ins.instruction) _ _ _ _ (λ h. dump_data-HasLength here ins xs [] h)
          λ h.
            let (jump, e, result) = and_value-silent (for_jump stoi env here ins) _ xs h in
            let sized = for_jump_size here ins jump [] e in
            let longer = length-dump_operation here jump xs result in omega arith)
