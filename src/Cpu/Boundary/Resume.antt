-- ===== src/Cpu/Boundary/Resume.antt =====
-- The debugger gets past its breakpoints.
use anc.Base.{ℕ, ◌≡◌, inl, inr, true, false, arith, ◌==◌, Bool-cases}
use anc.Cpu.State.{Cpu}
use anc.Cpu.Boundary.{persistent_hit, temporary_hit_at, at_breakpoint, break_at}
use anc.Cpu.Control.{start}

same_word : (a : ℕ) → (a == a) ≡ true
same_word a = ground arith

-- A processor that is not killed and has stopped at a breakpoint, of either kind, is not at one when
-- it is started again.
pub start-break_at :
    (c : Cpu)
    → c.killed ≡ false
    → at_breakpoint c ≡ true
    → at_breakpoint (start (break_at c)) ≡ false
unfolding start break_at at_breakpoint persistent_hit temporary_hit_at
start-break_at c k h = elim (Bool-cases (temporary_hit_at c)) [
  | inl t ↦ ground (arith, t, same_word c.pc)
  | inr t ↦ ground (arith, t, same_word c.pc)
]
