-- ===== src/Asm/Dump/Accepted.antt =====
-- What the assembler of assembler/include/assembler.hh emits without an error: instructions that the
-- processor accepts, in order, which the disassembler shows again.
use mathlib.Core.Path.{subst}
use anc.Asm.Encode.{build_addressing_mode, get_arguments, low_bits, value_at}
use anc.Isa.Encoding.{decode}
use anc.Isa.Opcode.{of_code}
use anc.Disasm.{accepts, disassemble}
use anc.Asm.Dump.{
  emit, isa_code, Stoi, accepts, report, Environment, of_code, Place, decode, dump_instruction,
  dump_operation, build_addressing_mode, for_jump, is_data, is_register, to_target, AddressingMode,
  index_token, number_node, get_arguments, is_jump, low_bits, is_immediate, is_relative_to_pc,
  assemble, dump_data, dump_instructions, size_of, emit_built, value_at,
}
use anc.Base.Int.{pos}
use anc.Asm.Dump.{id_in}
use anc.Asm.Eval.{Evaluated, evaluated, and_value, Stoi, after_errors, report, Place}
use anc.Disasm.Whole.{
  Coded, IsCoded, AreCoded, program_bytes, program_lines, disassemble-program_bytes,
}
use anc.Asm.Tree.{AsmError, Instruction, Token, Environment, AddressingMode}
use anc.Base.{
  ℕ, ◌+◌, ◌≡◌, refl, sym, ap, ◌∙◌, ◌≢◌, Bool, true, false, not, ◌&&◌, ◌||◌, Option, none, some,
  List, [], ◌∷◌, ◌++◌, ◌==◌, if◌then◌else◌, ==_iff, if_cases, length, ℤ, ◌-ℤ◌, out_of_range,
}

after_errors-silent :
    {A : Type 0} (es : List AsmError) (r : Evaluated A) (a : A)
    → after_errors es r ≡ some (a, [])
    → (es ≡ []) × (r ≡ some (a, []))
after_errors-silent es none a h = cc
after_errors-silent [] (some (b, more)) a h = (refl, h)
after_errors-silent (e ∷ es) (some (b, more)) a h = cc

-- A result without errors comes from a value without errors.
pub and_value-silent :
    {A B : Type 0} (r : Evaluated A) (go : A → Evaluated B) (b : B)
    → and_value r go ≡ some (b, [])
    → (a : A) × (r ≡ some (a, [])) × (go a ≡ some (b, []))
and_value-silent none go b h = cc
and_value-silent (some (a, es)) go b h =
    let (silent, result) = after_errors-silent es (go a) b h in
    (a, ap (λ errors. some (a, errors)) silent, result)

pub value_of : {A : Type 0} (a b : A) → evaluated a ≡ some (b, []) → a ≡ b
value_of a b h = cc

pub both_hold : (a b : Bool) → not a || not b ≡ false → (a ≡ true) × (b ≡ true)
both_hold true true h = (refl, refl)
both_hold true false h = cc
both_hold false b h = cc

-- The bytes are those of an instruction with this operation that the processor accepts.
abbrev pub IsCodeOf : ℕ → Coded → List ℕ → Type 0
IsCodeOf opc c xs = IsCoded c × (c.op ≡ opc) × (xs ≡ c.mode_byte ∷ c.op ∷ c.args)

abbrev Emits : ℕ → Evaluated (List ℕ) → Type 0
Emits opc r = (xs : List ℕ) → r ≡ some (xs, []) → (c : Coded) × IsCodeOf opc c xs

pub reported : {A : Type 0} (e : AsmError) (a b : A) → report e a ≢ some (b, [])
reported e a b = λ h. cc

emit-Emits : (addr opc : ℕ) (token : Token) (args : List ℕ) → Emits opc (emit addr opc token args)
unfolding emit
emit-Emits addr opc token args =
    let accepted = accepts (of_code opc) (decode addr) in
    let sized = length args == (decode addr).size in
    if_cases (Emits opc) (not accepted || not sized)
      (λ _ xs h. absurd (reported (AsmError.invalid_operand token) [] xs h))
      λ g xs h.
        let (a, s) = both_hold accepted sized g in
        (
          record { mode_byte = addr; op = opc; args = args },
          (
            (a, (==_iff (length args) (decode addr).size).0 s),
            refl,
            sym (value_of (addr ∷ opc ∷ args) xs h),
          ),
        )

emit_built-Emits :
    (addr : Option ℕ) (opc : ℕ) (token : Token) (args : List ℕ)
    → Emits opc (emit_built addr opc token args)
unfolding emit_built
emit_built-Emits none opc token args = λ xs h. cc
emit_built-Emits (some addr) opc token args = emit-Emits addr opc token args

pub second_branch : {A : Type 0} (b : Bool) (x y : A) → b ≡ false → (if b then x else y) ≡ y
second_branch true x y h = cc
second_branch false x y h = refl

-- No `reserve`, string or expression among them.
abbrev pub AreOperations : List Instruction → Type 0
AreOperations [] = Unit
AreOperations (ins ∷ rest) = (is_data ins.instruction ≡ false) × AreOperations rest

-- One coded instruction for each, with its operation.
abbrev pub Match : List Instruction → List Coded → Type 0
Match [] [] = Unit
Match [] (c ∷ cs) = ⊥
Match (ins ∷ rest) [] = ⊥
Match (ins ∷ rest) (c ∷ cs) = (c.op ≡ isa_code ins.instruction) × Match rest cs

module _ (stoi : Stoi) (env : Environment) where
  pub dump_operation_lem :
      (here : Place) (ins : Instruction)
      → dump_operation stoi env here ins ≡ (
          if is_register ins.index && ins.minus
          then report (AsmError.register_subtraction (index_token ins.index)) []
          else and_value (get_arguments stoi env here ins) (λ args.
            emit_built
              (build_addressing_mode ins)
              (isa_code ins.instruction)
              (index_token ins.op1)
              args))
  unfolding dump_operation
  dump_operation_lem here ins = refl

  dump_operation-Emits :
      (here : Place) (ins : Instruction)
      → Emits (isa_code ins.instruction) (dump_operation stoi env here ins)
  dump_operation-Emits here ins =
      let go = λ (args : List ℕ).
        emit_built (build_addressing_mode ins) (isa_code ins.instruction) (index_token ins.op1)
          args in
      rw (dump_operation_lem here ins) (
        if_cases (Emits (isa_code ins.instruction)) (is_register ins.index && ins.minus)
          (λ _ xs h.
            absurd (reported (AsmError.register_subtraction (index_token ins.index)) [] xs h))
          λ _ xs h.
            let (args, e, emitted) = and_value-silent (get_arguments stoi env here ins) go xs h in
            emit_built-Emits (build_addressing_mode ins) (isa_code ins.instruction)
              (index_token ins.op1) args xs emitted)

  -- The mode and the operand of a jump are changed, the operation is not.
  abbrev SameOp : Instruction → Evaluated Instruction → Type 0
  SameOp ins r = (jump : Instruction) → r ≡ some (jump, []) → jump.instruction ≡ ins.instruction

  evaluated-SameOp :
      (ins other : Instruction) → other.instruction ≡ ins.instruction → SameOp ins (evaluated other)
  evaluated-SameOp ins other same jump h =
      ap (λ (i : Instruction). i.instruction) (sym (value_of other jump h)) ∙ same

  to_target-SameOp :
      (here : Place) (ins : Instruction) (id : Option Token) (z : ℤ)
      → SameOp ins (to_target stoi env here ins id z)
  to_target-SameOp here ins none z = evaluated-SameOp ins ins refl
  to_target-SameOp here ins (some id) z =
      let distance = z -ℤ pos here.address -ℤ pos 3 in
      let short : Instruction = record ins { op1 = some (number_node (low_bits 256 distance)) } in
      if_cases (SameOp ins) (out_of_range 1 distance)
        (λ _ jump h. absurd (reported (AsmError.exceeds_signed_byte id) short jump h))
        λ _. evaluated-SameOp ins short refl

  for_jump-SameOp : (here : Place) (ins : Instruction) → SameOp ins (for_jump stoi env here ins)
  for_jump-SameOp here ins =
      let absolute : Instruction = record ins {
        addressing_mode = AddressingMode.memory_absolute;
      } in
      if_cases (SameOp ins) (is_jump ins.instruction)
        (λ _.
          if_cases (SameOp ins) (is_immediate ins.addressing_mode)
            (λ _. evaluated-SameOp ins absolute refl)
            λ _.
              if_cases (SameOp ins) (is_relative_to_pc ins.addressing_mode)
                (λ _ jump h.
                  let (z, e, result) =
                    and_value-silent (value_at stoi env here ins.op1)
                      (λ z. to_target stoi env here ins (id_in ins.op1) z) jump h in
                  to_target-SameOp here ins (id_in ins.op1) z jump result)
                λ _. evaluated-SameOp ins ins refl)
        λ _. evaluated-SameOp ins ins refl

  pub dump_instruction_lem :
      (here : Place) (ins : Instruction)
      → dump_instruction stoi env here ins ≡ (
          if is_data ins.instruction
          then dump_data stoi env here ins
          else and_value (for_jump stoi env here ins) (λ jump. dump_operation stoi env here jump))
  unfolding dump_instruction
  dump_instruction_lem here ins = refl

  dump_instruction-Emits :
      (here : Place) (ins : Instruction)
      → is_data ins.instruction ≡ false
      → Emits (isa_code ins.instruction) (dump_instruction stoi env here ins)
  dump_instruction-Emits here ins op xs h =
      let operate =
        and_value (for_jump stoi env here ins) (λ jump. dump_operation stoi env here jump) in
      let (jump, e, result) =
        and_value-silent (for_jump stoi env here ins) (λ jump. dump_operation stoi env here jump) xs
          (sym (second_branch (is_data ins.instruction) (dump_data stoi env here ins) operate op)
            ∙ sym (dump_instruction_lem here ins)
            ∙ h) in
      subst (λ name. (c : Coded) × IsCodeOf (isa_code name) c xs) (for_jump-SameOp here ins jump e)
        (dump_operation-Emits here jump xs result)

  pub dump_instructions_cons :
      (address : ℕ) (ins : Instruction) (rest : List Instruction)
      → dump_instructions stoi env address (ins ∷ rest)
        ≡ and_value
            (dump_instruction stoi env (record { address = address; active_label = ins.label }) ins)
            (λ xs.
              and_value
                (dump_instructions stoi env (address + size_of ins) rest)
                (λ ys. evaluated (xs ++ ys)))
  unfolding dump_instructions
  dump_instructions_cons address ins rest = refl

  pub dump_instructions_nil : (address : ℕ) → dump_instructions stoi env address [] ≡ evaluated []
  unfolding dump_instructions
  dump_instructions_nil address = refl

  abbrev Assembled : List Instruction → List ℕ → Type 0
  Assembled is bytes = (cs : List Coded) × AreCoded cs × Match is cs × (bytes ≡ program_bytes cs)

  dump_instructions-Assembled :
      (address : ℕ) (is : List Instruction) (bytes : List ℕ)
      → AreOperations is
      → dump_instructions stoi env address is ≡ some (bytes, [])
      → Assembled is bytes
  dump_instructions-Assembled address [] bytes ops h =
      ([], tt, tt, sym (value_of [] bytes (sym (dump_instructions_nil address) ∙ h)))
  dump_instructions-Assembled address (ins ∷ rest) bytes (op, ops) h =
      let here : Place = record { address = address; active_label = ins.label } in
      let later = dump_instructions stoi env (address + size_of ins) rest in
      let (xs, first_is, more) =
        and_value-silent (dump_instruction stoi env here ins)
          (λ xs. and_value later (λ ys. evaluated (xs ++ ys))) bytes
          (sym (dump_instructions_cons address ins rest) ∙ h) in
      let (ys, rest_is, joined) = and_value-silent later (λ ys. evaluated (xs ++ ys)) bytes more in
      let (c, (coded, named, xs_are)) = dump_instruction-Emits here ins op xs first_is in
      let (cs, codeds, match, ys_are) =
        dump_instructions-Assembled (address + size_of ins) rest ys ops rest_is in
      let all : xs ++ ys ≡ program_bytes (c ∷ cs) =
        ap (λ zs. zs ++ ys) xs_are ∙ ap (λ zs. c.mode_byte ∷ c.op ∷ c.args ++ zs) ys_are in
      (c ∷ cs, (coded, codeds), (named, match), sym (value_of (xs ++ ys) bytes joined) ∙ all)

-- A program of operations that is assembled without an error consists of instructions that the
-- processor accepts, one for each line and with its operation, and the disassembler shows them in
-- that order.
pub disassemble-assemble :
    (stoi : Stoi) (env : Environment) (bytes : List ℕ)
    → AreOperations env.instructions
    → assemble stoi env ≡ some (bytes, [])
    → (cs : List Coded) × AreCoded cs
      × Match env.instructions cs
      × (bytes ≡ program_bytes cs)
      × (disassemble bytes ≡ some (program_lines cs))
disassemble-assemble stoi env bytes ops h =
    let start : assemble stoi env ≡ dump_instructions stoi env 0 env.instructions =
      unfold assemble in refl in
    let (cs, coded, match, same) =
      dump_instructions-Assembled stoi env 0 env.instructions bytes ops (sym start ∙ h) in
    (cs, coded, match, same, ap disassemble same ∙ disassemble-program_bytes cs coded)
