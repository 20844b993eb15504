-- ===== src/Asm/Gives.antt =====
-- What holds of the value of a computation that reports errors on the way, whatever they are.
use anc.Base.{ℕ, zero, suc, ◌≡◌, refl, none, some, List, [], ◌∷◌, ◌++◌}
use mathlib.Core.Path.{subst}
use anc.Asm.Eval.{Evaluated, and_value, evaluated, report, after_errors}
use anc.Asm.Modes.Operand.{with_child}
use anc.Asm.Tree.{nil, cons, AsmError, Ast, Asts}

abbrev pub Gives : {A : Type 0} → (A → Type 0) → Evaluated A → Type 0
Gives {A} P r = (a : A) (es : List AsmError) → r ≡ some (a, es) → P a

value_with :
    {A : Type 0} (a b : A) (es fs : List AsmError)
    → ◌≡◌ {A = Evaluated A} (some (a, es)) (some (b, fs))
    → a ≡ b
value_with a b es fs h = cc

module _ {A : Type 0} (P : A → Type 0) where
  pub Gives-none : Gives P none
  Gives-none a es h = cc

  pub Gives-some : (a : A) (es : List AsmError) → P a → Gives P (some (a, es))
  Gives-some a es p b fs h = subst P (value_with a b es fs h) p

  pub Gives-evaluated : (a : A) → P a → Gives P (evaluated a)
  Gives-evaluated a p = Gives-some a [] p

  pub Gives-report : (e : AsmError) (a : A) → P a → Gives P (report e a)
  Gives-report e a p = Gives-some a (e ∷ []) p

  pub Gives-after_errors :
      (es : List AsmError) (r : Evaluated A) → Gives P r → Gives P (after_errors es r)
  Gives-after_errors es none p = Gives-none
  Gives-after_errors es (some (a, more)) p = Gives-some a (es ++ more) (p a more refl)

  -- With what is known of the first value.
  pub Gives-and_value :
      {B : Type 0} (Q : B → Type 0) (r : Evaluated B) (go : B → Evaluated A)
      → Gives Q r
      → ((b : B) → Q b → Gives P (go b))
      → Gives P (and_value r go)
  Gives-and_value Q none go q p = Gives-none
  Gives-and_value Q (some (b, es)) go q p = Gives-after_errors es (go b) (p b (q b es refl))

  pub Gives-and :
      {B : Type 0} (r : Evaluated B) (go : B → Evaluated A)
      → ((b : B) → Gives P (go b))
      → Gives P (and_value r go)
  Gives-and r go p = Gives-and_value (λ _. Unit) r go (λ b es h. tt) λ b _. p b

  pub Gives-with_child :
      (kids : Asts) (i : ℕ) (go : Ast → Evaluated A)
      → ((a : Ast) → Gives P (go a))
      → Gives P (with_child kids i go)
  Gives-with_child nil i go p = Gives-none
  Gives-with_child (cons a rest) zero go p = p a
  Gives-with_child (cons a rest) (suc i) go p = Gives-with_child rest i go p
