-- ===== src/Asm/Analyze/Aligned.antt =====
-- The invariant of the analyzer, assembler/include/analyzer.hh: the address that it has reached is the
-- size of what it has noted, and each label stands where its address says.
use anc.Base.{
  ℕ, ◌+◌, ◌≡◌, refl, sym, ap, ◌∙◌, ◌⊎◌, inl, inr, Bool, true, false, not, ◌&&◌, ◌||◌, Option, some,
  List, [], ◌∷◌, ◌++◌, arith, ltb, ◌==◌, if_cases, codes, same_text, length,
}
use mathlib.Core.Path.{subst}
use mathlib.Core.List.{append_assoc}
use anc.Asm.Analyze.State.{Analysis, put, push_instruction}
use anc.Asm.Dump.Length.{emitted}
use anc.Asm.Dump.Split.{total, total-++, AreSized}
use anc.Asm.Dump.{size_of, is_immediate, text_or_empty}
use anc.Asm.Encode.{byte_s, word_s}
use anc.Asm.Tree.{Instruction, Label, find}

-- An immediate that is neither a byte nor a word, which a declaration makes that assigns a value to a
-- variable of another size, or a string without its two quotes.
abbrev pub is_misfit : Instruction → Bool
is_misfit ins =
    is_immediate ins.addressing_mode
      && not (ins.addr_mode_size == byte_s || ins.addr_mode_size == word_s)
    || same_text ins.instruction (codes "string") && ltb (length (text_or_empty ins.op1)) 2

abbrev pub IsSized : Instruction → Type 0
IsSized ins = (is_misfit ins ≡ true) ⊎ (size_of ins ≡ emitted ins)

abbrev pub AllSized : List Instruction → Type 0
AllSized [] = Unit
AllSized (ins ∷ rest) = IsSized ins × AllSized rest

abbrev pub NoMisfits : List Instruction → Type 0
NoMisfits [] = Unit
NoMisfits (ins ∷ rest) = (is_misfit ins ≡ false) × NoMisfits rest

-- The instructions before a place have this size.
abbrev pub Reached : ℕ → List Instruction → Type 0
Reached n is = (before after : List Instruction) × (is ≡ before ++ after) × (total before ≡ n)

abbrev pub Placed : List (List ℕ × Label) → List Instruction → Type 0
Placed [] is = Unit
Placed ((key, l) ∷ rest) is = Reached l.address is × Placed rest is

abbrev pub Aligned : Analysis → Type 0
Aligned st =
    (st.current_address ≡ total st.instructions)
    × AllSized st.instructions
    × Placed st.labels st.instructions

push_instruction-Reached :
    (n : ℕ) (is : List Instruction) (ins : Instruction) → Reached n is → Reached n (is ++ ins ∷ [])
push_instruction-Reached n is ins (before, after, same, size) = (
  before,
  after ++ ins ∷ [],
  ap (λ xs. xs ++ ins ∷ []) same ∙ append_assoc before after (ins ∷ []),
  size,
)

push_instruction-Placed :
    (labels : List (List ℕ × Label)) (is : List Instruction) (ins : Instruction)
    → Placed labels is
    → Placed labels (is ++ ins ∷ [])
push_instruction-Placed [] is ins p = tt
push_instruction-Placed ((key, l) ∷ rest) is ins (p, q) =
    (push_instruction-Reached l.address is ins p, push_instruction-Placed rest is ins q)

push_instruction-AllSized :
    (is : List Instruction) (ins : Instruction)
    → AllSized is
    → IsSized ins
    → AllSized (is ++ ins ∷ [])
push_instruction-AllSized [] ins p q = (q, tt)
push_instruction-AllSized (one ∷ rest) ins (p, ps) q = (p, push_instruction-AllSized rest ins ps q)

pub put-Placed :
    (key : List ℕ) (l : Label) (labels : List (List ℕ × Label)) (is : List Instruction)
    → Reached l.address is
    → Placed labels is
    → Placed (put key l labels) is
put-Placed key l [] is r p = (r, tt)
put-Placed key l ((k, one) ∷ rest) is r (p, ps) =
    if_cases (λ ls. Placed ls is) (same_text k key) (λ _. (r, ps))
      λ _. (p, put-Placed key l rest is r ps)

found : (a b : Label) → ◌≡◌ {A = Option Label} (some a) (some b) → a ≡ b
found a b h = cc

pub find-Reached :
    (key : List ℕ) (l : Label) (labels : List (List ℕ × Label)) (is : List Instruction)
    → Placed labels is
    → find key labels ≡ some l
    → Reached l.address is
find-Reached key l [] is p = λ h. cc
find-Reached key l ((k, one) ∷ rest) is (p, ps) =
    if_cases (λ (o : Option Label). o ≡ some l → Reached l.address is) (same_text k key)
      (λ _ h. subst (λ (m : Label). Reached m.address is) (found one l h) p)
      λ _ h. find-Reached key l rest is ps h

-- A line with its size added to the address.
pub line-Aligned :
    (ins : Instruction) (st : Analysis) (address : ℕ)
    → IsSized ins
    → address ≡ st.current_address + size_of ins
    → Aligned st
    → Aligned (record (push_instruction ins st) { current_address = address })
line-Aligned ins st address sized reached (counted, all, placed) =
    let noted : Instruction = record ins { label = st.current_label } in
    let more = total-++ st.instructions (noted ∷ []) in
    (
      (let size : total (noted ∷ []) ≡ size_of ins + 0 = refl in omega arith),
      push_instruction-AllSized st.instructions noted all sized,
      push_instruction-Placed st.labels st.instructions noted placed,
    )

append_nil : (is : List Instruction) → is ++ [] ≡ is
append_nil [] = refl
append_nil (ins ∷ rest) = ap (λ xs. ins ∷ xs) (append_nil rest)

-- The end of what is there.
pub here-Reached : (st : Analysis) → Aligned st → Reached st.current_address st.instructions
here-Reached st (counted, all, placed) =
    (st.instructions, [], sym (append_nil st.instructions), sym counted)

pub contrary : (b : Bool) → b ≡ true → b ≡ false → ⊥
contrary true g h = cc
contrary false g h = cc

pub AllSized-AreSized : (is : List Instruction) → AllSized is → NoMisfits is → AreSized is
AllSized-AreSized [] p q = tt
AllSized-AreSized (ins ∷ rest) (inr p, ps) (q, qs) = (p, AllSized-AreSized rest ps qs)
AllSized-AreSized (ins ∷ rest) (inl p, ps) (q, qs) = absurd (contrary (is_misfit ins) p q)
