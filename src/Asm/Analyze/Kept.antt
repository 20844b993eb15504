-- ===== src/Asm/Analyze/Kept.antt =====
-- The sections and the labels of assembler/include/analyzer.hh keep its invariant.
pub mod Operation
pub mod Data
pub mod Declared
pub mod Program
use anc.Base.{
  ℕ, ◌-◌, ◌≡◌, refl, Bool, true, false, Option, none, some, ◌++◌, if◌then◌else◌, if_cases,
  option_cases, codes, same_text,
}
use mathlib.Core.Path.{subst}
use anc.Asm.Gives.{Gives}
use anc.Asm.Analyze.State.{Analysis, noting, is_empty_text, and_analysis}
use anc.Asm.Analyze.Labels.{
  close_label, open_label, define_label, label_at, analyze_label, analyze_section,
}
use anc.Asm.Analyze.Aligned.{Aligned, here-Reached, put-Placed, find-Reached}
use anc.Asm.Eval.{Evaluated}
use anc.Asm.Tree.{nil, cons, Asts, Label, Token, find, child_at, text_of, token_of}

abbrev pub Keeps : Option Analysis → Type 0
Keeps r = (st : Analysis) → r ≡ some st → Aligned st

pub same_analysis : (a b : Analysis) → ◌≡◌ {A = Option Analysis} (some a) (some b) → a ≡ b
same_analysis a b h = cc

pub some-Keeps : (st : Analysis) → Aligned st → Keeps (some st)
some-Keeps st p next h = subst Aligned (same_analysis st next h) p

pub none-Keeps : Keeps none
none-Keeps st h = cc

pub noting-Keeps :
    {A : Type 0} (Q : A → Type 0) (r : Evaluated A) (st : Analysis)
    → (go : A → Analysis → Option Analysis) → Gives Q r
    → Aligned st
    → ((a : A) (next : Analysis) → Q a → Aligned next → Keeps (go a next))
    → Keeps (noting r st go)
noting-Keeps Q none st go q p k = none-Keeps
noting-Keeps Q (some (a, es)) st go q p k =
    k a (record st { errors = st.errors ++ es }) (q a es refl) p

-- Where nothing is asked of the value.
pub noting_any :
    {A : Type 0} (r : Evaluated A) (st : Analysis) (go : A → Analysis → Option Analysis)
    → Aligned st
    → ((a : A) (next : Analysis) → Aligned next → Keeps (go a next))
    → Keeps (noting r st go)
noting_any r st go p k = noting-Keeps (λ _. Unit) r st go (λ a es h. tt) p λ a next _ q. k a next q

pub and_analysis-Keeps :
    (r : Option Analysis) (go : Analysis → Option Analysis)
    → Keeps r
    → ((next : Analysis) → Aligned next → Keeps (go next))
    → Keeps (and_analysis r go)
and_analysis-Keeps none go p k = none-Keeps
and_analysis-Keeps (some st) go p k = k st (p st refl)

-- A section, and the errors, change nothing of it.
pub analyze_section-Keeps :
    (kids : Asts) (st : Analysis) → Aligned st → Keeps (analyze_section kids st)
unfolding analyze_section
analyze_section-Keeps kids st p =
    option_cases Keeps (child_at kids 2) (λ _. none-Keeps)
      λ a _. some-Keeps (record st { current_section = text_of a }) p

pub close_label-Aligned : (st : Analysis) → Aligned st → Aligned (close_label st)
close_label-Aligned st (counted, all, placed) =
    option_cases Aligned (find st.current_label st.labels) (λ _. (counted, all, placed))
      λ l h.
        let closed : Label = record l { size = st.current_address - l.address } in
        let reached = find-Reached st.current_label l st.labels st.instructions placed h in
        (counted, all, put-Placed st.current_label closed st.labels st.instructions reached placed)

open_label-Aligned :
    (is_local : Bool) (t : Token) (st : Analysis) → Aligned st → Aligned (open_label is_local t st)
open_label-Aligned is_local t st p =
    let (counted, all, placed) = p in
    let opened : Label = record {
      address = st.current_address;
      is_local = is_local;
      module_name = t.module_name;
      size = 0;
    } in
    (counted, all, put-Placed t.value opened st.labels st.instructions (here-Reached st p) placed)

pub closed-Aligned :
    (b : Bool) (st : Analysis) → Aligned st → Aligned (if b then st else close_label st)
closed-Aligned true st p = p
closed-Aligned false st p = close_label-Aligned st p

define_label-Aligned :
    (is_local : Bool) (t : Token) (st : Analysis)
    → Aligned st
    → Aligned (define_label is_local t st)
unfolding define_label
define_label-Aligned is_local t st p =
    option_cases Aligned (find t.value st.labels)
      (λ _.
        open_label-Aligned is_local t
          (if is_empty_text st.current_label then st else close_label st)
          (closed-Aligned (is_empty_text st.current_label) st p))
      λ l _. p

label_at-Keeps :
    (is_local : Bool) (kids : Asts) (i : ℕ) (st : Analysis)
    → Aligned st
    → Keeps (label_at is_local kids i st)
label_at-Keeps is_local kids i st p =
    option_cases Keeps (child_at kids i) (λ _. none-Keeps)
      λ a _.
        some-Keeps (define_label is_local (token_of a) st)
          (define_label-Aligned is_local (token_of a) st p)

pub analyze_label-Keeps : (kids : Asts) (st : Analysis) → Aligned st → Keeps (analyze_label kids st)
unfolding analyze_label
analyze_label-Keeps nil st p = none-Keeps
analyze_label-Keeps (cons x rest) st p =
    if_cases Keeps (same_text (text_of x) (codes "local"))
      (λ _. label_at-Keeps true (cons x rest) 1 st p)
      λ _.
        if_cases Keeps (same_text (text_of x) (codes "global"))
          (λ _. label_at-Keeps false (cons x rest) 1 st p)
          λ _. label_at-Keeps false (cons x rest) 0 st p
