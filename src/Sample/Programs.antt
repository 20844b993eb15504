-- ===== src/Sample/Programs.antt =====
-- Programs for the disassembler, and instances of the theorems on it.
use anc.Disasm.{disassemble}
use anc.Disasm.Whole.{AreCoded, Coded, program_bytes, program_lines, disassemble-program_bytes}
use anc.Base.{◌≡◌, refl, some, List, [], ◌∷◌, ◌++◌, codes}
use anc.Isa.Opcode.{of_code}
use anc.Isa.Encoding.{decode}
use anc.Isa.Valid.{valid}

-- `jmp & 0x0102`, `add r1, word 0x0005`, `ret`.
abbrev program : List Coded
program =
    record { mode_byte = 0x80; op = 0x22; args = 1 ∷ 2 ∷ [] }
    ∷ record { mode_byte = 0xc9; op = 0x2f; args = 0 ∷ 5 ∷ [] }
    ∷ record { mode_byte = 0; op = 0x05; args = [] }
    ∷ []

program-AreCoded : AreCoded program
unfolding of_code valid decode
program-AreCoded = ((refl, refl), ((refl, refl), ((refl, refl), tt)))

disassemble-program_bytes_example :
    disassemble (program_bytes program) ≡ some (program_lines program)
disassemble-program_bytes_example = disassemble-program_bytes program program-AreCoded

-- What is shown.
shown :
    disassemble (0x80 ∷ 0x22 ∷ 1 ∷ 2 ∷ 0xff ∷ [])
    ≡ some ((9 ∷ codes "jmp & 0x0102") ++ (10 ∷ 9 ∷ codes "byte 0xff") ++ 10 ∷ [])
unfolding disassemble
shown = refl
