-- ===== src/Asm/Dump/Split.antt =====
-- Where the bytes of each instruction stand in what `dump_instructions` of
-- assembler/include/assembler.hh emits.
use anc.Base.{ℕ, ◌+◌, ◌≡◌, refl, sym, ap, ◌∙◌, some, List, [], ◌∷◌, ◌++◌, arith, length}
use mathlib.Core.List.{append_assoc}
use anc.Asm.Dump.Accepted.{
  and_value-silent, value_of, dump_instructions_cons, dump_instructions_nil,
}
use anc.Asm.Dump.Length.{emitted, length-dump_instruction}
use anc.Asm.Dump.{dump_instructions, dump_instruction, size_of}
use anc.Asm.Encode.Length.{length-++}
use anc.Asm.Eval.{Stoi, Place, and_value, evaluated, after_errors}
use anc.Asm.Tree.{Environment, Instruction}

-- What the analyzer counts for them.
abbrev pub total : List Instruction → ℕ
total [] = 0
total (ins ∷ rest) = size_of ins + total rest

-- The size noted for each is that of the bytes emitted for it.
abbrev pub AreSized : List Instruction → Type 0
AreSized [] = Unit
AreSized (ins ∷ rest) = (size_of ins ≡ emitted ins) × AreSized rest

pub total-++ : (xs ys : List Instruction) → total (xs ++ ys) ≡ total xs + total ys
total-++ [] ys = omega arith
total-++ (x ∷ xs) ys = let rest = total-++ xs ys in omega arith

module _ (stoi : Stoi) (env : Environment) where
  -- The first instruction and the others.
  first_and_rest :
      (address : ℕ) (ins : Instruction) (rest : List Instruction) (bytes : List ℕ)
      → dump_instructions stoi env address (ins ∷ rest) ≡ some (bytes, [])
      → (xs ys : List ℕ) × (dump_instruction stoi env
            (record { address = address; active_label = ins.label })
            ins
          ≡ some (xs, []))
        × (dump_instructions stoi env (address + size_of ins) rest ≡ some (ys, []))
        × (xs ++ ys ≡ bytes)
  first_and_rest address ins rest bytes h =
      let later = dump_instructions stoi env (address + size_of ins) rest in
      let (xs, first_is, more) =
        and_value-silent
          (dump_instruction stoi env (record { address = address; active_label = ins.label }) ins)
          (λ xs. and_value later (λ ys. evaluated (xs ++ ys))) bytes
          (sym (dump_instructions_cons stoi env address ins rest) ∙ h) in
      let (ys, rest_is, joined) = and_value-silent later (λ ys. evaluated (xs ++ ys)) bytes more in
      (xs, ys, first_is, rest_is, value_of (xs ++ ys) bytes joined)

  pub length-dump_instructions :
      (address : ℕ) (is : List Instruction) (bytes : List ℕ)
      → AreSized is
      → dump_instructions stoi env address is ≡ some (bytes, [])
      → length bytes ≡ total is
  length-dump_instructions address [] bytes sized h =
      sym (ap length (value_of [] bytes (sym (dump_instructions_nil stoi env address) ∙ h)))
  length-dump_instructions address (ins ∷ rest) bytes (one, sized) h =
      let (xs, ys, first_is, rest_is, joined) = first_and_rest address ins rest bytes h in
      let here : Place = record { address = address; active_label = ins.label } in
      let first_length = length-dump_instruction stoi env here ins xs first_is in
      let rest_length = length-dump_instructions (address + size_of ins) rest ys sized rest_is in
      let all = sym (ap length joined) ∙ length-++ xs ys in omega arith

  -- The bytes of the instructions before a place and those of the instructions behind it.
  pub dump_instructions_split :
      (address : ℕ) (before after : List Instruction) (bytes : List ℕ)
      → dump_instructions stoi env address (before ++ after) ≡ some (bytes, [])
      → (front back : List ℕ) × (bytes ≡ front ++ back)
        × (dump_instructions stoi env address before ≡ some (front, []))
        × (dump_instructions stoi env (address + total before) after ≡ some (back, []))
  dump_instructions_split address [] after bytes h =
      let start : address + 0 ≡ address = omega arith in
      (
        [],
        bytes,
        refl,
        dump_instructions_nil stoi env address,
        ap (λ a. dump_instructions stoi env a after) start ∙ h,
      )
  dump_instructions_split address (ins ∷ before) after bytes h =
      let (xs, ys, first_is, rest_is, joined) =
        first_and_rest address ins (before ++ after) bytes h in
      let (front, back, same, front_is, back_is) =
        dump_instructions_split (address + size_of ins) before after ys rest_is in
      let later : address + (size_of ins + total before) ≡ address + size_of ins + total before =
        omega arith in
      let both : dump_instructions stoi env address (ins ∷ before) ≡ some (xs ++ front, []) =
        dump_instructions_cons stoi env address ins before
        ∙ ap
            (λ r. and_value r (λ zs.
              and_value (dump_instructions stoi env (address + size_of ins) before)
                (λ ws. evaluated (zs ++ ws))))
            first_is
        ∙ ap (λ r. after_errors [] (and_value r (λ ws. evaluated (xs ++ ws)))) front_is in
      (
        xs ++ front,
        back,
        sym joined ∙ ap (λ zs. xs ++ zs) same ∙ sym (append_assoc xs front back),
        both,
        ap (λ a. dump_instructions stoi env a after) later ∙ back_is,
      )
