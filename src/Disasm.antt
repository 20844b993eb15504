-- ===== src/Disasm.antt =====
-- The disassembler, disassembler/include/disassembler.hh: `disassemble`. The header of a file with
-- metadata is not read here; the model starts at the bytes.
pub mod Text
pub mod Whole
use anc.Isa.Opcode.{Op, of_code}
use anc.Isa.Valid.{valid}
use anc.Disasm.Text.{hex, name_of, offset}
use anc.Isa.Encoding.{Encoding, Mode, decode}
use anc.Base.{
  ℕ, zero, suc, ◌+◌, ◌*◌, Bool, true, false, not, ◌&&◌, ◌||◌, Option, none, some, List, [], ◌∷◌,
  ◌++◌, leb, ◌==◌, if◌then◌else◌, codes, length, get_elem?, take, drop,
}

-- `bytes[i]`, 0 behind the end, where the loop never looks.
abbrev byte_at : List ℕ → ℕ → ℕ
byte_at bs i = elim (get_elem? bs i) [ none ↦ 0 | some b ↦ b ]

abbrev word_at : List ℕ → ℕ → ℕ
word_at bs i = byte_at bs i * 256 + byte_at bs (i + 1)

-- `value`.
unfoldable pub immediate_text : Encoding → List ℕ → ℕ → List ℕ
unfolding hex
immediate_text e args i =
    if e.width == 1
    then codes "byte " ++ hex (byte_at args i) 2
    else codes "word " ++ hex (word_at args i) 4

abbrev low_register : Encoding → List ℕ
low_register e = codes "l" ++ (48 + e.reg) ∷ []

abbrev register_text : Encoding → List ℕ
register_text e = (if e.width == 1 then codes "l" else codes "r") ++ (48 + e.reg) ∷ []

-- `switch (e.mode)`; the argument bytes start at 0.
unfoldable pub mode_text : Mode → Encoding → List ℕ → List ℕ
unfolding immediate_text hex offset
mode_text Mode.implied e args = []
mode_text Mode.immediate e args = immediate_text e args 0
mode_text Mode.reg e args = register_text e
mode_text Mode.regs e args = register_text e ++ codes ", r" ++ (48 + e.source) ∷ []
mode_text Mode.absolute e args = codes "& " ++ hex (word_at args 0) 4
mode_text Mode.indexed e args =
    codes "& " ++ hex (word_at args 0) 4 ++ codes " + " ++ low_register e
mode_text Mode.indirect e args = codes "[" ++ hex (word_at args 0) 4 ++ codes "]"
mode_text Mode.indirect_indexed e args =
    codes "[" ++ hex (word_at args 0) 4 ++ codes "] + " ++ low_register e
mode_text Mode.pc e args = codes "* " ++ offset (byte_at args 0)
mode_text Mode.bp e args = codes "& bp " ++ offset (byte_at args 0)
mode_text Mode.pc_reg e args = codes "* " ++ low_register e
mode_text Mode.bp_reg e args = codes "& bp + " ++ low_register e
mode_text Mode.store_bp e args =
    codes "& bp " ++ offset (byte_at args 0) ++ codes ", " ++ immediate_text e args 1
mode_text Mode.store_bp_reg e args =
    codes "& bp + " ++ low_register e ++ codes ", " ++ immediate_text e args 0
mode_text Mode.store_absolute e args =
    codes "& " ++ hex (word_at args 0) 4 ++ codes ", " ++ immediate_text e args 2
mode_text Mode.store_indexed e args =
    codes "& "
    ++ hex (word_at args 0) 4
    ++ codes " + "
    ++ low_register e
    ++ codes ", "
    ++ immediate_text e args 2
mode_text Mode.reg_immediate e args = register_text e ++ codes ", " ++ immediate_text e args 0
mode_text Mode.reg_absolute e args = codes "& " ++ hex (word_at args 0) 4
mode_text Mode.reg_pc e args = codes "* " ++ offset (byte_at args 0)
mode_text Mode.reg_bp e args = codes "& bp " ++ offset (byte_at args 0)
mode_text Mode.invalid e args = []

abbrev moves_register : Mode → Bool
moves_register Mode.reg_absolute = true
moves_register Mode.reg_pc = true
moves_register Mode.reg_bp = true
moves_register _ = false

unfoldable pub operand_text : ℕ → Encoding → List ℕ → List ℕ
unfolding mode_text
operand_text op e args =
    let operand = mode_text e.mode e args in
    if not (moves_register e.mode)
    then operand
    else if op == 0x3b || op == 0x1b || op == 0x1d
    then operand ++ codes ", " ++ register_text e
    else register_text e ++ codes ", " ++ operand

abbrev spaced : List ℕ → List ℕ
spaced [] = []
spaced (c ∷ cs) = 32 ∷ c ∷ cs

-- The line of an instruction; 9 is the tab, 10 the end of the line.
unfoldable pub instruction_line : ℕ → ℕ → List ℕ → List ℕ
unfolding name_of operand_text decode
instruction_line a op args = 9 ∷ name_of op ++ spaced (operand_text op (decode a) args) ++ 10 ∷ []

unfoldable pub byte_line : ℕ → List ℕ
unfolding hex
byte_line b = 9 ∷ codes "byte " ++ hex b 2 ++ 10 ∷ []

abbrev line_before : List ℕ → Option (List ℕ) → Option (List ℕ)
line_before line none = none
line_before line (some text) = some (line ++ text)

-- `valid` on a byte; one that is no operation belongs to no family.
abbrev pub accepts : Option Op → Encoding → Bool
accepts none e = false
accepts (some o) e = valid o e

-- Whether the two bytes and those behind them are an instruction.
unfoldable pub is_instruction : ℕ → ℕ → List ℕ → Bool
unfolding valid decode of_code
is_instruction a op rest = accepts (of_code op) (decode a) && leb (decode a).size (length rest)

-- The loop over the bytes from `i` on; `none` is out of fuel.
unfoldable pub disassemble_from : ℕ → List ℕ → Option (List ℕ)
unfolding byte_line is_instruction instruction_line
disassemble_from zero bytes = none
disassemble_from (suc fuel) [] = some []
disassemble_from (suc fuel) (b ∷ []) = line_before (byte_line b) (disassemble_from fuel [])
disassemble_from (suc fuel) (a ∷ op ∷ rest) =
    let size = (decode a).size in
    let skip = line_before (byte_line a) (disassemble_from fuel (op ∷ rest)) in
    let next =
      line_before (instruction_line a op (take size rest))
        (disassemble_from fuel (drop size rest)) in
    if is_instruction a op rest then next else skip

-- Each round takes a byte at least.
unfoldable pub disassemble : List ℕ → Option (List ℕ)
unfolding disassemble_from
disassemble bytes = disassemble_from (length bytes + 1) bytes
