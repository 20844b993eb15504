-- ===== src/Cpu/Monad.antt =====
-- Methods that change the processor. What a method changed before it throws stays changed.
use anc.Base.{ℕ, ◌≡◌, refl}
use anc.Cpu.State.{Cpu}
use anc.Cpu.Exc.{Exc, ok, fault, error}

abbrev pub M : Type 0 → Type 0
M A = Cpu → Exc A × Cpu

abbrev pub pure : {A : Type 0} → A → M A
pure a c = (ok a, c)

abbrev pub throw : {A : Type 0} → ℕ → M A
throw k c = (fault k, c)

-- A `const` method and a method that throws nothing, as steps.
abbrev pub reads : {A : Type 0} → (Cpu → Exc A) → M A
reads r c = (r c, c)

abbrev pub modify : (Cpu → Cpu) → M (Unit {0})
modify f c = (ok tt, f c)

abbrev pub and_then : {A B : Type 0} → (A → M B) → Exc A × Cpu → Exc B × Cpu
and_then f (ok a, c) = f a c
and_then f (fault k, c) = (fault k, c)
and_then f (error m, c) = (error m, c)

-- A sequence that returns has returned at its first step.
pub and_then_ok :
    {A B : Type 0} (f : A → M B) (r : Exc A) (c : Cpu) {b : B}
    → (and_then f (r, c)).0 ≡ ok b
    → (a : A) × (r ≡ ok a) × ((f a c).0 ≡ ok b)
and_then_ok f (ok a) c h = (a, refl, h)
and_then_ok f (fault k) c h = cc
and_then_ok f (error m) c h = cc

infixl 5 ◌>>=◌ ◌>>◌
abbrev pub ◌>>=◌ : {A B : Type 0} → M A → (A → M B) → M B
◌>>=◌ m f c = and_then f (m c)

abbrev pub ◌>>◌ : {B : Type 0} → M (Unit {0}) → M B → M B
m >> k = m >>= λ _. k
