-- ===== src/Machine/State.antt =====
-- The processor with the external memory mapper that it is connected to, and methods on the pair.
use anc.Base.{Option}
use anc.Cpu.State.{Cpu}
use anc.Cpu.Exc.{Exc, ok, fault, error}
use anc.Cpu.Monad.{M}

-- `emem` is `none` for the null pointer.
pub record Machine (D : Type 0) : Type 0 where
  pub cpu : Cpu
  pub emem : Option D

abbrev pub Act : Type 0 → Type 0 → Type 0
Act D A = Machine D → Exc A × Machine D

abbrev pub and_then : {D A B : Type 0} → (A → Act D B) → Exc A × Machine D → Exc B × Machine D
and_then f (ok a, m) = f a m
and_then f (fault k, m) = (fault k, m)
and_then f (error e, m) = (error e, m)

infixl 5 ◌>>=◌ ◌>>◌
abbrev pub ◌>>=◌ : {D A B : Type 0} → Act D A → (A → Act D B) → Act D B
◌>>=◌ a f m = and_then f (a m)

abbrev pub ◌>>◌ : {D B : Type 0} → Act D (Unit {0}) → Act D B → Act D B
a >> k = a >>= λ _. k

-- A method of the processor alone.
abbrev pub on_cpu : {D A : Type 0} → M A → Act D A
on_cpu f m = ((f m.cpu).0, record m { cpu = (f m.cpu).1 })

abbrev pub update_cpu : {D : Type 0} → (Cpu → Cpu) → Machine D → Machine D
update_cpu f m = record m { cpu = f m.cpu }
