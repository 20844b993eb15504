-- ===== src/Cpu/Confined.antt =====
-- User code and memory: what an unprivileged operation may change while S is clear.
use mathlib.Core.Path.{subst}
use anc.Base.{ℕ, ◌≤◌, ◌<◌, ◌≡◌, refl, sym, ap, ◌∙◌, ◌⊎◌, false, arith}
use anc.Cpu.State.{Cpu}
use anc.Cpu.Frame.{Keeps, IsFrame, IsStepFrame}
use anc.Cpu.Access.{check}
use anc.Cpu.Memory.{write, store_bytes}

-- From user mode: still in user mode, with the same MTU and CPUID, and no byte changed outside the
-- MTU's IMEM bounds.
abbrev pub Confined : Cpu → Cpu → Type 0
Confined c d =
    c.sr.system ≡ false
    → (d.sr.system ≡ false)
      × (d.mtu ≡ c.mtu)
      × (d.cpuid ≡ c.cpuid)
      × ((b : ℕ) → (b < c.mtu 0) ⊎ (c.mtu 1 < b) → d.imem b ≡ c.imem b)

Confined-IsFrame : IsFrame Confined
Confined-IsFrame = record {
  same = λ c u. (u, refl, refl, λ b h. refl);
  chain = λ c d e p q u.
      let r = p u in
      let t = q r.0 in
      (
        t.0,
        t.1 ∙ r.1,
        t.2 ∙ r.2,
        λ b h. t.3 b (subst (λ (m : ℕ → ℕ). (b < m 0) ⊎ (m 1 < b)) (sym r.1) h) ∙ r.3 b h,
      );
}

write-Confined : (a v w : ℕ) → 1 ≤ w → Keeps Confined (write a v w)
unfolding write check store_bytes
write-Confined a v w pos c u = (ground arith, ground arith, ground arith, λ b h. ground arith)

pub Confined-IsStepFrame : IsStepFrame Confined
Confined-IsStepFrame = record {
  frame = Confined-IsFrame;
  quiet = λ c d m t i s u. (s u, t, i, λ b h. ap (λ (f : ℕ → ℕ). f b) m);
  writes = write-Confined;
}
