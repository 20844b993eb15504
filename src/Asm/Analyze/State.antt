-- ===== src/Asm/Analyze/State.antt =====
-- The state of the analyzer: `Environment`, `current_address`, `bp_relative_address`, `current_label` and
-- `current_section` (assembler/include/analyzer.hh and ast.hh).
use anc.Asm.Encode.{low_bits}
use anc.Asm.Modes.Operand.{Scope}
use anc.Asm.Eval.{Evaluated}
use anc.Base.{
  ℕ, ◌+◌, Bool, true, false, Option, none, some, List, [], ◌∷◌, ◌++◌, if◌then◌else◌, same_text, ℤ,
}
use anc.Asm.Tree.{AsmError, Instruction, Label, Variable}

-- What a structure is: its fields with their sizes.
pub record Analysis : Type 0 where
  pub labels : List (List ℕ × Label)
  pub structures : List (List ℕ × List (List ℕ × ℕ))
  pub variables : List (List ℕ × Variable)
  pub instructions : List Instruction
  pub current_address : ℕ
  pub bp_relative_address : ℕ
  pub current_label : List ℕ
  pub current_section : List ℕ
  pub errors : List AsmError

abbrev pub scope_of : Analysis → Scope
scope_of st = record {
  variables = st.variables;
  current_label = st.current_label;
  current_address = st.current_address;
}

abbrev pub complain : AsmError → Analysis → Analysis
complain e st = record st { errors = st.errors ++ e ∷ [] }

-- `map[key] = value`.
abbrev pub put : {A : Type 0} → List ℕ → A → List (List ℕ × A) → List (List ℕ × A)
put key a [] = (key, a) ∷ []
put key a ((k, b) ∷ rest) = if same_text k key then (key, a) ∷ rest else (k, b) ∷ put key a rest

-- The value with its errors noted; `none` is an exception.
abbrev pub noting :
    {A : Type 0} → Evaluated A → Analysis → (A → Analysis → Option Analysis) → Option Analysis
noting none st go = none
noting (some (a, es)) st go = go a (record st { errors = st.errors ++ es })

abbrev pub push_instruction : Instruction → Analysis → Analysis
push_instruction ins st = record st {
  instructions = st.instructions ++ record ins { label = st.current_label } ∷ [];
}

abbrev pub advance_by : ℕ → Analysis → Analysis
advance_by size st = record st { current_address = st.current_address + size }

-- An `int` as a `size_t`.
abbrev pub as_size : ℤ → ℕ
as_size z = low_bits 0x10000000000000000 z

abbrev pub is_empty_text : List ℕ → Bool
is_empty_text [] = true
is_empty_text (c ∷ cs) = false

abbrev pub and_analysis : Option Analysis → (Analysis → Option Analysis) → Option Analysis
and_analysis none go = none
and_analysis (some st) go = go st
