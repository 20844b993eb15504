-- ===== src/Asm/Analyze/Layout.antt =====
-- The analyzer of assembler/include/analyzer.hh and the last pass of assembler/include/assembler.hh
-- together: where a label's bytes are, and how many bytes there are.
use anc.Base.{
  ℕ, ◌+◌, ◌≤◌, ◌≡◌, refl, sym, ap, ◌∙◌, Bool, true, false, not, ◌||◌, Option, some, List, [], ◌∷◌,
  ◌++◌, arith, ltb, if◌then◌else◌, if_cases, option_cases, length,
}
use mathlib.Core.Path.{subst}
use anc.Asm.Analyze.Labels.{close_label}
use anc.Asm.Analyze.{analyze_command, empty_analysis, analyze, environment_of, finish_analysis}
use anc.Asm.Analyze.State.{Analysis, is_empty_text}
use anc.Asm.Analyze.Aligned.{contrary, AllSized-AreSized, NoMisfits, find-Reached}
use anc.Asm.Analyze.Kept.{same_analysis}
use anc.Asm.Analyze.Kept.Program.{analyze-Aligned}
use anc.Asm.Dump.{assemble, dump_instructions}
use anc.Asm.Dump.Split.{AreSized, total, length-dump_instructions, dump_instructions_split}
use anc.Asm.Encode.{get_arguments}
use anc.Asm.Encode.Length.{get_arguments-HasLength}
use anc.Asm.Modes.Operand.{Scope}
use anc.Asm.Modes.{get_instruction}
use anc.Asm.Modes.Sized.{get_instruction-AllFit}
use anc.Asm.Eval.{Stoi, Place}
use anc.Asm.Tree.{AsmError, Ast, Environment, Instruction, Label, find, has_errors, is_warning}

assemble_lem :
    (stoi : Stoi) (env : Environment)
    → assemble stoi env ≡ dump_instructions stoi env 0 env.instructions
unfolding assemble
assemble_lem stoi env = refl

AreSized-before : (before after : List Instruction) → AreSized (before ++ after) → AreSized before
AreSized-before [] after p = tt
AreSized-before (ins ∷ rest) after (p, ps) = (p, AreSized-before rest after ps)

or_last : (a b : Bool) → b ≡ true → a || b ≡ true
or_last true b h = refl
or_last false b h = h

-- A program that is analyzed, and assembled without an error of the last pass, has its labels where the
-- analyzer said, if none of its lines is an immediate that is neither a byte nor a word or a string
-- without its quotes: the bytes before the address of a label are as many as that address, and those
-- from it on are what the lines behind the label give when they are dumped at that address.
pub assemble-analyze :
    (stoi : Stoi) (root : Ast) (st : Analysis) (bytes name : List ℕ) (l : Label)
    → analyze stoi root ≡ some st
    → NoMisfits st.instructions
    → assemble stoi (environment_of stoi st) ≡ some (bytes, [])
    → find name st.labels ≡ some l
    → (before after : List Instruction) × (front back : List ℕ) × (st.instructions
        ≡ before ++ after)
      × (bytes ≡ front ++ back)
      × (length front ≡ l.address)
      × (dump_instructions stoi (environment_of stoi st) l.address after ≡ some (back, []))
assemble-analyze stoi root st bytes name l analyzed fit assembled found =
    let env = environment_of stoi st in
    let (counted, all, placed) = analyze-Aligned stoi root st analyzed in
    let (before, after, same, size) = find-Reached name l st.labels st.instructions placed found in
    let dumped : dump_instructions stoi env 0 (before ++ after) ≡ some (bytes, []) =
      ap (dump_instructions stoi env 0) (sym same) ∙ sym (assemble_lem stoi env) ∙ assembled in
    let (front, back, joined, front_is, back_is) =
      dump_instructions_split stoi env 0 before after bytes dumped in
    let sized =
      AreSized-before before after
        (subst AreSized same (AllSized-AreSized st.instructions all fit)) in
    let measured = length-dump_instructions stoi env 0 before front sized front_is in
    let there : 0 + total before ≡ l.address = omega arith in
    (
      before,
      after,
      front,
      back,
      same,
      joined,
      measured ∙ size,
      ap (λ a. dump_instructions stoi env a after) (sym there) ∙ back_is,
    )

complained : (es : List AsmError) → has_errors (es ++ AsmError.program_exceeds ∷ []) ≡ true
unfolding has_errors
complained [] = refl
complained (e ∷ es) = or_last (not (is_warning e)) _ (complained es)

finish_analysis_bound :
    (stoi : Stoi) (st : Analysis)
    → has_errors (finish_analysis stoi st).errors ≡ false
    → (finish_analysis stoi st).current_address ≤ 65536
finish_analysis_bound stoi st =
    let closed = if is_empty_text st.current_label then st else close_label st in
    if_cases (λ (done : Analysis). has_errors done.errors ≡ false → done.current_address ≤ 65536)
      (ltb 65536 closed.current_address)
      (λ _ clean. absurd (contrary _ (complained closed.errors) clean)) λ h _. ground arith

analyze_bound :
    (stoi : Stoi) (root : Ast) (st : Analysis)
    → analyze stoi root ≡ some st
    → has_errors st.errors ≡ false
    → st.current_address ≤ 65536
unfolding analyze
analyze_bound stoi root st =
    option_cases
      (λ (o : Option Analysis).
        o ≡ some st → has_errors st.errors ≡ false → st.current_address ≤ 65536)
      (analyze_command stoi root (empty_analysis stoi)) (λ _ h. cc)
      λ done _ e.
        subst (λ (last : Analysis). has_errors last.errors ≡ false → last.current_address ≤ 65536)
          (same_analysis (finish_analysis stoi done) st e) (finish_analysis_bound stoi done)

-- A program that is analyzed with no error but warnings, and assembled without an error of the last pass,
-- takes as many bytes as the address that the analyzer reached, 65536 at most, if none of its lines is
-- an immediate that is neither a byte nor a word or a string without its quotes.
pub length-assemble :
    (stoi : Stoi) (root : Ast) (st : Analysis) (bytes : List ℕ)
    → analyze stoi root ≡ some st
    → has_errors st.errors ≡ false
    → NoMisfits st.instructions
    → assemble stoi (environment_of stoi st) ≡ some (bytes, [])
    → (length bytes ≡ st.current_address) × (length bytes ≤ 65536)
length-assemble stoi root st bytes analyzed clean fit assembled =
    let env = environment_of stoi st in
    let (counted, all, placed) = analyze-Aligned stoi root st analyzed in
    let measured =
      length-dump_instructions stoi env 0 st.instructions bytes
        (AllSized-AreSized st.instructions all fit) (sym (assemble_lem stoi env) ∙ assembled) in
    let same = measured ∙ sym counted in
    let bounded = analyze_bound stoi root st analyzed clean in
    (same, subst (λ n. n ≤ 65536) (sym same) bounded)

-- The size in the instruction that `get_instruction` gives is the number of bytes of the arguments that
-- `get_arguments` makes of that instruction, at whatever place and with whatever labels, also where
-- either of them reports errors.
pub length-get_arguments :
    (stoi : Stoi) (s : Scope) (a : Ast) (ins : Instruction) (noted : List AsmError)
    (env : Environment) (here : Place) (args : List ℕ) (reported : List AsmError)
    → get_instruction stoi s a ≡ some (ins, noted)
    → get_arguments stoi env here ins ≡ some (args, reported)
    → length args ≡ ins.addr_mode_size
length-get_arguments stoi s a ins noted env here args reported h g =
    get_arguments-HasLength stoi env here ins args reported g
    ∙ sym (get_instruction-AllFit stoi s a ins noted h)
