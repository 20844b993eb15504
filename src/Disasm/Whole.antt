-- ===== src/Disasm/Whole.antt =====
-- The disassembler, disassembler/include/disassembler.hh, on whole programs: it ends on every input, and
-- shows each instruction of a program on its line.
use anc.Isa.Encoding.{decode}
use anc.Isa.Opcode.{of_code}
use anc.Disasm.{
  accepts, disassemble, disassemble_from, instruction_line, is_instruction, byte_line, line_before,
  of_code, decode,
}
use anc.Base.{
  ℕ, zero, suc, ◌+◌, ◌≤◌, ◌<◌, ◌≡◌, refl, sym, ap, ◌∙◌, ◌≢◌, true, Option, none, some, List, [],
  ◌∷◌, ◌++◌, arith, leb, if_cases, length, take, drop,
}

line_before-returns : (line : List ℕ) (r : Option (List ℕ)) → r ≢ none → line_before line r ≢ none
line_before-returns line none h = λ e. h refl
line_before-returns line (some text) h = λ e. cc

length-drop-le : (n : ℕ) (xs : List ℕ) → length (drop n xs) ≤ length xs
length-drop-le zero xs = omega arith
length-drop-le (suc n) [] = omega arith
length-drop-le (suc n) (x ∷ xs) = let h = length-drop-le n xs in omega arith

disassemble_from-returns :
    (fuel : ℕ) (bytes : List ℕ) → length bytes < fuel → disassemble_from fuel bytes ≢ none
unfolding disassemble_from
disassemble_from-returns zero bytes h = absurd (omega arith)
disassemble_from-returns (suc fuel) [] h = λ e. cc
disassemble_from-returns (suc fuel) (b ∷ []) h =
    line_before-returns (byte_line b) (disassemble_from fuel [])
      (disassemble_from-returns fuel [] (omega arith))
disassemble_from-returns (suc fuel) (a ∷ op ∷ rest) h =
    let size = (decode a).size in
    let shorter = length-drop-le size rest in
    if_cases (λ r. r ≢ none) (is_instruction a op rest)
      (λ _.
        line_before-returns (instruction_line a op (take size rest))
          (disassemble_from fuel (drop size rest))
          (disassemble_from-returns fuel (drop size rest) (omega arith)))
      λ _.
        line_before-returns (byte_line a) (disassemble_from fuel (op ∷ rest))
          (disassemble_from-returns fuel (op ∷ rest) (omega arith))

-- The disassembler ends on every list of bytes, with a text.
pub disassemble-returns : (bytes : List ℕ) → disassemble bytes ≢ none
unfolding disassemble
disassemble-returns bytes = disassemble_from-returns (length bytes + 1) bytes (omega arith)

-- An instruction as it stands in a program.
pub record Coded : Type 0 where
  pub mode_byte : ℕ
  pub op : ℕ
  pub args : List ℕ

-- The processor accepts it, and all its arguments are there.
abbrev pub IsCoded : Coded → Type 0
IsCoded c =
    (accepts (of_code c.op) (decode c.mode_byte) ≡ true)
    × (length c.args ≡ (decode c.mode_byte).size)

abbrev pub AreCoded : List Coded → Type 0
AreCoded [] = Unit
AreCoded (c ∷ cs) = IsCoded c × AreCoded cs

abbrev pub program_bytes : List Coded → List ℕ
program_bytes [] = []
program_bytes (c ∷ cs) = c.mode_byte ∷ c.op ∷ c.args ++ program_bytes cs

abbrev pub program_lines : List Coded → List ℕ
program_lines [] = []
program_lines (c ∷ cs) = instruction_line c.mode_byte c.op c.args ++ program_lines cs

take-append : (xs ys : List ℕ) → take (length xs) (xs ++ ys) ≡ xs
take-append [] ys = refl
take-append (x ∷ xs) ys = ap (λ zs. x ∷ zs) (take-append xs ys)

drop-append : (xs ys : List ℕ) → drop (length xs) (xs ++ ys) ≡ ys
drop-append [] ys = refl
drop-append (x ∷ xs) ys = drop-append xs ys

length-append-le : (xs ys : List ℕ) → leb (length xs) (length (xs ++ ys)) ≡ true
length-append-le [] ys = ground arith
length-append-le (x ∷ xs) ys = let h = length-append-le xs ys in ground (arith, h)

-- One round on an instruction.
disassemble_from-Coded :
    (fuel a op : ℕ) (rest : List ℕ)
    → is_instruction a op rest ≡ true
    → disassemble_from (suc fuel) (a ∷ op ∷ rest)
      ≡ line_before
          (instruction_line a op (take (decode a).size rest))
          (disassemble_from fuel (drop (decode a).size rest))
unfolding disassemble_from
disassemble_from-Coded fuel a op rest h = rw (h, disassemble_from) refl

is_instruction-IsCoded :
    (c : Coded) (rest : List ℕ)
    → IsCoded c
    → is_instruction c.mode_byte c.op (c.args ++ rest) ≡ true
unfolding is_instruction
is_instruction-IsCoded c rest (ok, sized) = rw (ok, sym sized) (length-append-le c.args rest)

length-behind : (xs ys : List ℕ) → length ys ≤ length (xs ++ ys)
length-behind [] ys = omega arith
length-behind (x ∷ xs) ys = let h = length-behind xs ys in omega arith

round_of :
    (fuel : ℕ) (c : Coded) (rest : List ℕ)
    → IsCoded c
    → disassemble_from (suc fuel) (c.mode_byte ∷ c.op ∷ c.args ++ rest)
      ≡ line_before (instruction_line c.mode_byte c.op c.args) (disassemble_from fuel rest)
round_of fuel c rest coded =
    let step =
      disassemble_from-Coded fuel c.mode_byte c.op (c.args ++ rest)
        (is_instruction-IsCoded c rest coded) in
    let args = ap (λ n. take n (c.args ++ rest)) (sym coded.1) ∙ take-append c.args rest in
    let behind = ap (λ n. drop n (c.args ++ rest)) (sym coded.1) ∙ drop-append c.args rest in
    step
    ∙ ap
        (λ xs.
          line_before (instruction_line c.mode_byte c.op xs)
            (disassemble_from fuel (drop (decode c.mode_byte).size (c.args ++ rest))))
        args
    ∙ ap (λ xs. line_before (instruction_line c.mode_byte c.op c.args) (disassemble_from fuel xs))
        behind

disassemble_from-program :
    (fuel : ℕ) (cs : List Coded)
    → AreCoded cs
    → length (program_bytes cs) < fuel
    → disassemble_from fuel (program_bytes cs) ≡ some (program_lines cs)
disassemble_from-program zero cs coded h = absurd (omega arith)
disassemble_from-program (suc fuel) [] coded h = unfold disassemble_from in refl
disassemble_from-program (suc fuel) (c ∷ cs) (one, more) h =
    let shorter = length-behind c.args (program_bytes cs) in
    round_of fuel c (program_bytes cs) one
    ∙ ap (line_before (instruction_line c.mode_byte c.op c.args))
        (disassemble_from-program fuel cs more (omega arith))

-- The disassembler keeps in step with a program: the bytes of instructions that the processor accepts,
-- with all their arguments, are shown as the lines of these instructions, in order.
pub disassemble-program_bytes :
    (cs : List Coded) → AreCoded cs → disassemble (program_bytes cs) ≡ some (program_lines cs)
unfolding disassemble
disassemble-program_bytes cs coded =
    disassemble_from-program (length (program_bytes cs) + 1) cs coded (omega arith)
