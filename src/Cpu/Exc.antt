-- ===== src/Cpu/Exc.antt =====
-- Exceptions: a method returns, throws a `Fault`, or throws a `std::runtime_error`.
use anc.Base.{ℕ}
use anc.Cpu.State.{Failure}

pub data Exc {ℓ} (A : Type ℓ) : Type ℓ where
  ok : A → Exc A
  fault : ℕ → Exc A
  error : Failure → Exc A

-- For the `const` methods.
infixl 5 ◌>>=◌ ◌>>◌
abbrev pub ◌>>=◌ {ℓ κ} : {A : Type ℓ} {B : Type κ} → Exc A → (A → Exc B) → Exc B
ok a >>= f = f a
fault k >>= f = fault k
error m >>= f = error m

abbrev pub ◌>>◌ {ℓ} : {B : Type ℓ} → Exc (Unit {0}) → Exc B → Exc B
m >> k = m >>= λ _. k
