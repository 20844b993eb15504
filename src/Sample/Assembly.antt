-- ===== src/Sample/Assembly.antt =====
-- A program for the last pass of the assembler, and an instance of the theorem on it.
use anc.Asm.Comments.{remove_comments}
use anc.Asm.Comments.Lines.{new_lines, new_lines-remove_comments}
use anc.Disasm.{disassemble}
use anc.Asm.Dump.{assemble}
use anc.Asm.Eval.{Stoi}
use anc.Disasm.Whole.{Coded, AreCoded, program_bytes, program_lines}
use anc.Asm.Dump.Accepted.{AreOperations, Match, disassemble-assemble}
use anc.Base.{
  ℕ, ◌+◌, ◌-◌, ◌*◌, ◌≡◌, refl, false, none, some, List, [], ◌∷◌, codes, same_text, length,
}
use anc.Base.Int.{pos}
use anc.Asm.Tree.{
  nil, node, Ast, Environment, Instruction, Label, TokenType, AddressingMode, RuleName,
}

abbrev leaf_of : List ℕ → TokenType → Ast
leaf_of text t = node RuleName.none_rule (record { value = text; type = t; module_name = [] }) nil

-- Decimal digits.
abbrev digits_value : ℕ → List ℕ → ℕ
digits_value acc [] = acc
digits_value acc (c ∷ cs) = digits_value (acc * 10 + (c - 48)) cs

abbrev pub decimal_stoi : Stoi
decimal_stoi text base = some (pos (digits_value 0 text), length text)

abbrev main : List ℕ
main = codes "main"

abbrev add_line : Instruction
add_line = record {
  addressing_mode = AddressingMode.immediate_to_register;
  op1 = some (leaf_of (codes "r1") TokenType.register);
  op2 = some (leaf_of (codes "5") TokenType.number_literal);
  minus = false;
  index = none;
  instruction = codes "add";
  addr_mode_size = 2;
  label = main;
}

abbrev jump_line : Instruction
jump_line = record {
  addressing_mode = AddressingMode.memory_relative_to_pc;
  op1 = some (leaf_of main TokenType.identifier);
  op2 = none;
  minus = false;
  index = none;
  instruction = codes "jz";
  addr_mode_size = 1;
  label = main;
}

abbrev main_label : Label
main_label = record { address = 0; is_local = false; module_name = codes "m"; size = 7 }

abbrev environment : Environment
environment = record {
  labels = (main, main_label) ∷ [];
  variables = [];
  instructions = add_line ∷ jump_line ∷ [];
}

-- `jz` is `jeq`; the distance back is 7.
abbrev assembled : List ℕ
assembled = 0xc9 ∷ 0x2f ∷ 0 ∷ 5 ∷ 0x84 ∷ 0x23 ∷ 0xf9 ∷ []

assembled_lem : assemble decimal_stoi environment ≡ some (assembled, [])
unfolding assemble
assembled_lem = refl

lines-AreOperations : AreOperations environment.instructions
unfolding same_text
lines-AreOperations = (refl, (refl, tt))

disassemble-assemble_example :
    (cs : List Coded) × AreCoded cs
    × Match environment.instructions cs
    × (assembled ≡ program_bytes cs)
    × (disassemble assembled ≡ some (program_lines cs))
disassemble-assemble_example =
    disassemble-assemble decimal_stoi environment assembled lines-AreOperations assembled_lem

new_lines-remove_comments_example :
    new_lines (remove_comments (codes "add r1, 5 ; five\nret\n"))
    ≡ new_lines (codes "add r1, 5 ; five\nret\n")
new_lines-remove_comments_example = new_lines-remove_comments (codes "add r1, 5 ; five\nret\n")

-- A string of one escaped backslash is not seen to end, so the comment behind it stays.
backslash_string :
    remove_comments (34 ∷ 92 ∷ 92 ∷ 34 ∷ 59 ∷ 120 ∷ []) ≡ 34 ∷ 92 ∷ 92 ∷ 34 ∷ 59 ∷ 120 ∷ []
unfolding remove_comments
backslash_string = refl
