-- ===== src/Sample/Analysis.antt =====
-- A program for the analyzer and the last pass of the assembler, and instances of the theorems on it.
use anc.Base.{
  ℕ, ◌≤◌, ◌≡◌, refl, false, Option, none, some, List, [], ◌∷◌, ◌++◌, codes, same_text, length,
}
use anc.Asm.Analyze.{analyze, environment_of, empty_analysis}
use anc.Asm.Analyze.State.{Analysis}
use anc.Asm.Dump.{assemble}
use anc.Asm.Tree.{nil, cons, node, Ast, Asts, RuleName, TokenType, Token}
use anc.Sample.Assembly.{decimal_stoi}
use anc.Asm.Analyze.Aligned.{Aligned, NoMisfits}
use anc.Asm.Analyze.Kept.Program.{analyze-Aligned}
use anc.Asm.Analyze.Layout.{assemble-analyze, length-assemble, length-get_arguments}
use anc.Asm.Analyze.State.{scope_of}
use anc.Asm.Dump.{dump_instructions}
use anc.Asm.Encode.{get_arguments}
use anc.Asm.Eval.{Evaluated, Place}
use anc.Asm.Modes.Operand.{Scope, blank}
use anc.Asm.Modes.{get_instruction}
use anc.Asm.Modes.Stores.{Stores, store_operands}
use anc.Asm.Tree.{AddressingMode, Instruction, Label, find, has_errors}

abbrev token : List ℕ → TokenType → Token
token text t = record { value = text; type = t; module_name = codes "m" }

abbrev token_tree : List ℕ → TokenType → Ast
token_tree text t = node RuleName.none_rule (token text t) nil

abbrev tree : RuleName → Asts → Ast
tree rule kids = node rule (token [] TokenType.other) kids

abbrev expression : List ℕ → TokenType → Ast
expression text t = tree RuleName.expression (cons (token_tree text t) nil)

abbrev label_line : List ℕ → Ast
label_line name = tree RuleName.label (cons (token_tree name TokenType.identifier) nil)

abbrev operation : List ℕ → RuleName → Ast → Ast
operation name mode a =
    tree RuleName.instruction_rule
      (cons (token_tree name TokenType.instruction) (cons (tree mode (cons a nil)) nil))

abbrev comma : Ast
comma = token_tree (codes ",") TokenType.separator

-- `add r1, 5`.
abbrev add_five : Ast
add_five = operation (codes "add") RuleName.addressing_mode (
    tree RuleName.addressing_mode_memory_to_register (
      cons (token_tree (codes "r1") TokenType.register)
        (cons comma (cons (expression (codes "5") TokenType.number_literal) nil))))

abbrev jump_to_loop : Ast
jump_to_loop =
    operation (codes "jmp") RuleName.addressing_mode_immediate
      (expression (codes "loop") TokenType.identifier)

-- `7, "AB"`.
abbrev some_data : Ast
some_data = tree RuleName.expression_list (
    cons (expression (codes "7") TokenType.number_literal) (
      cons
        (tree RuleName.expression_list
          (cons (token_tree (34 ∷ 65 ∷ 66 ∷ 34 ∷ []) TokenType.string_literal) nil))
        nil))

abbrev program : Ast
program = tree RuleName.command (
    cons (label_line (codes "main"))
      (cons add_five (cons (label_line (codes "loop")) (cons jump_to_loop (cons some_data nil)))))

abbrev or_empty : Option Analysis → Analysis
or_empty none = empty_analysis decimal_stoi
or_empty (some st) = st

unfoldable analyzed : Analysis
unfolding analyze
analyzed = or_empty (analyze decimal_stoi program)

analyzed_lem : analyze decimal_stoi program ≡ some analyzed
unfolding analyze analyzed
analyzed_lem = refl

analyzed-NoMisfits : NoMisfits analyzed.instructions
unfolding analyzed same_text
analyzed-NoMisfits = (refl, (refl, (refl, (refl, tt))))

-- `jmp` is to 4, where `loop` is.
abbrev bytes : List ℕ
bytes = 0xc9 ∷ 0x2f ∷ 0 ∷ 5 ∷ 0x80 ∷ 0x22 ∷ 0 ∷ 4 ∷ 7 ∷ 65 ∷ 66 ∷ []

bytes_lem : assemble decimal_stoi (environment_of decimal_stoi analyzed) ≡ some (bytes, [])
unfolding assemble analyzed
bytes_lem = refl

abbrev loop_label : Label
loop_label = record { address = 4; is_local = false; module_name = codes "m"; size = 7 }

loop_label_lem : find (codes "loop") analyzed.labels ≡ some loop_label
unfolding analyzed same_text
loop_label_lem = refl

assemble-analyze_example :
    (before after : List Instruction) × (front back : List ℕ) × (analyzed.instructions
      ≡ before ++ after)
    × (bytes ≡ front ++ back)
    × (length front ≡ 4)
    × (dump_instructions decimal_stoi (environment_of decimal_stoi analyzed) 4 after
        ≡ some (back, []))
assemble-analyze_example =
    assemble-analyze decimal_stoi program analyzed bytes (codes "loop") loop_label analyzed_lem
      analyzed-NoMisfits bytes_lem loop_label_lem

analyzed-has_errors : has_errors analyzed.errors ≡ false
unfolding analyzed has_errors
analyzed-has_errors = refl

length-assemble_example : (length bytes ≡ analyzed.current_address) × (length bytes ≤ 65536)
length-assemble_example =
    length-assemble decimal_stoi program analyzed bytes analyzed_lem analyzed-has_errors
      analyzed-NoMisfits bytes_lem

analyze-Aligned_example : Aligned analyzed
analyze-Aligned_example = analyze-Aligned decimal_stoi program analyzed analyzed_lem

abbrev scope : Scope
scope = scope_of (empty_analysis decimal_stoi)

abbrev five : Ast
five = tree RuleName.addressing_mode_memory_to_register (
    cons (token_tree (codes "r1") TokenType.register)
      (cons comma (cons (expression (codes "5") TokenType.number_literal) nil)))

abbrev or_blank : Evaluated Instruction → Instruction
or_blank none = blank AddressingMode.implied_mode 0
or_blank (some (ins, es)) = ins

unfoldable five_line : Instruction
unfolding get_instruction
five_line =
    or_blank (get_instruction decimal_stoi scope (tree RuleName.addressing_mode (cons five nil)))

five_line_lem :
    get_instruction decimal_stoi scope (tree RuleName.addressing_mode (cons five nil))
    ≡ some (five_line, [])
unfolding five_line get_instruction
five_line_lem = refl

abbrev start : Place
start = record { address = 0; active_label = [] }

five_line_bytes :
    get_arguments decimal_stoi (environment_of decimal_stoi analyzed) start five_line
    ≡ some (0 ∷ 5 ∷ [], [])
unfolding five_line get_arguments
five_line_bytes = refl

length-get_arguments_example : length {A = ℕ} (0 ∷ 5 ∷ []) ≡ five_line.addr_mode_size
length-get_arguments_example =
    length-get_arguments decimal_stoi scope (tree RuleName.addressing_mode (cons five nil))
      five_line [] (environment_of decimal_stoi analyzed) start (0 ∷ 5 ∷ []) [] five_line_lem
      five_line_bytes

-- `& bp + 2, r0`.
abbrev frame_store : Ast
frame_store = node RuleName.addressing_mode_relative_bp (token [] TokenType.other) (
    store_operands (token_tree (codes "&") TokenType.other)
      (token_tree (codes "bp") TokenType.register)
      (token_tree (codes "+") TokenType.unary_left_operator)
      (expression (codes "2") TokenType.number_literal) comma
      (token_tree (codes "r0") TokenType.register))

unfoldable stored : Instruction
unfolding get_instruction
stored =
    or_blank (get_instruction decimal_stoi scope (tree RuleName.none_rule (cons frame_store nil)))
