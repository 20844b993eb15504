-- ===== src/Cpu/Frame.antt =====
-- Relations between the processor before and after a method, whether it returns or throws, and the
-- rule that carries them through a sequence of steps.
pub mod Exec
use anc.Base.{ℕ, ◌≤◌, ◌≡◌, false}
use anc.Cpu.State.{Cpu}
use anc.Cpu.Memory.{write}
use anc.Cpu.Exc.{Exc, ok, fault, error}
use anc.Cpu.Monad.{M, ◌>>=◌, and_then}

pub record IsFrame (R : Cpu → Cpu → Type 0) : Type 0 where
  pub same : (c : Cpu) → R c c
  pub chain : (c d e : Cpu) → R c d → R d e → R c e

abbrev pub Keeps : {A : Type 0} → (Cpu → Cpu → Type 0) → M A → Type 0
Keeps R m = (c : Cpu) → R c (m c).1

module _ (R : Cpu → Cpu → Type 0) (frame : IsFrame R) where
  after_step :
      {A B : Type 0} (f : A → M B)
      → ((a : A) → Keeps R (f a))
      → (c : Cpu) (s : Exc A × Cpu) → R c s.1
      → R c (and_then f s).1
  after_step f keep c (ok a, d) r = frame.chain c d (f a d).1 r (keep a d)
  after_step f keep c (fault k, d) r = r
  after_step f keep c (error m, d) r = r

  pub Keeps->>= :
      {A B : Type 0} (m : M A) (f : A → M B)
      → Keeps R m
      → ((a : A) → Keeps R (f a))
      → Keeps R (m >>= f)
  Keeps->>= m f first rest c = after_step f rest c (m c) (first c)

-- A relation that a checked write keeps, and that does not look at what else user code may change.
pub record IsStepFrame (R : Cpu → Cpu → Type 0) : Type 0 where
  pub frame : IsFrame R
  pub quiet :
      (c d : Cpu)
      → d.imem ≡ c.imem
      → d.mtu ≡ c.mtu
      → d.cpuid ≡ c.cpuid
      → (c.sr.system ≡ false → d.sr.system ≡ false)
      → R c d
  pub writes : (a v w : ℕ) → 1 ≤ w → Keeps R (write a v w)
