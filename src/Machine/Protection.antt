-- ===== src/Machine/Protection.antt =====
-- Protection: what one instruction of user code can change in the machine, and that none changes ROM.
use anc.Cpu.Status.{Status}
use anc.Cpu.Rom.{
  einr-SameRom, SameRom, SameRom-IsFrame, interrupt-SameRom, einr-SameRom, exec-SameRom,
}
use anc.Machine.Frame.{IsInstructionFrame, run_instruction-R, execute-R}
use mathlib.Core.Path.{subst}
use anc.Cpu.Interrupt.{interrupt, einr}
use anc.Base.{ℕ, ◌≤◌, ◌<◌, ◌≡◌, refl, sym, ap, ◌∙◌, ◌⊎◌, Bool, true, false, none, arith}
use anc.Cpu.State.{Cpu}
use anc.Cpu.Frame.Exec.{exec-Keeps}
use anc.Cpu.Confined.{Confined, Confined-IsStepFrame}
use anc.Cpu.Interrupt.Page.{SystemPage, interrupt-SystemPage, einr-SystemPage}
use anc.Cpu.Operand.{Operand}
use anc.Cpu.Exec.{exec}
use anc.Isa.Opcode.{Op, privileged}
use anc.Isa.Encoding.{Encoding}
use anc.Machine.Bus.{Bus}
use anc.Machine.State.{Machine}
use anc.Machine.Step.{run_instruction, execute}

-- The MTU and CPUID are the same, and so is each byte that lies neither within the MTU's IMEM bounds
-- nor in the system page.
abbrev pub Sealed : Cpu → Cpu → Type 0
Sealed c d =
    (d.mtu ≡ c.mtu)
    × (d.cpuid ≡ c.cpuid)
    × ((b : ℕ) → (b < c.mtu 0) ⊎ (c.mtu 1 < b) → (b < 0x3000) ⊎ (0x3200 ≤ b) → d.imem b ≡ c.imem b)

Sealed-chain : (c d e : Cpu) → Sealed c d → Sealed d e → Sealed c e
Sealed-chain c d e p q = (
  q.0 ∙ p.0,
  q.1 ∙ p.1,
  λ b h k. q.2 b (subst (λ (m : ℕ → ℕ). (b < m 0) ⊎ (m 1 < b)) (sym p.0) h) k ∙ p.2 b h k,
)

Sealed-SystemPage : (c d : Cpu) → SystemPage c d → Sealed c d
Sealed-SystemPage c d p = (p.0, p.1, λ b h k. p.2 b k)

Sealed-Confined : (c d : Cpu) → c.sr.system ≡ false → Confined c d → Sealed c d
Sealed-Confined c d u p = ((p u).1, (p u).2, λ b h k. (p u).3 b h)

denied : (b : Bool) → (b ≡ true → ⊥) → b ≡ false
denied true n = absurd (n refl)
denied false n = refl

-- One operation of the switch, from user mode.
exec-Sealed :
    (now : ℕ) (op : Op) (e : Encoding) (x : Operand) (c : Cpu)
    → 1 ≤ e.width
    → privileged op ≡ false
    → c.sr.system ≡ false
    → Sealed c (exec now op e x c).1
exec-Sealed now Op.syscall e x c w p u =
    unfold exec in Sealed-SystemPage c (interrupt 6 none c).1 (interrupt-SystemPage 6 none c)
exec-Sealed now op e x c w p u =
    Sealed-Confined c (exec now op e x c).1 u
      (exec-Keeps Confined Confined-IsStepFrame now op e x w p (λ q. cc) c)

IsUser : Status → Type 0
IsUser s = s.system ≡ false

Sealed-IsInstructionFrame : IsInstructionFrame IsUser Sealed
unfolding IsUser
Sealed-IsInstructionFrame = record {
  frame = record { same = λ c. (refl, refl, λ b h k. refl); chain = Sealed-chain };
  registers = λ c d m t i. (t, i, λ b h k. ap (λ (f : ℕ → ℕ). f b) m);
  entry = λ v code c. Sealed-SystemPage c (interrupt v code c).1 (interrupt-SystemPage v code c);
  response = λ a p k c. Sealed-SystemPage c (einr a p k c).1 (einr-SystemPage a p k c);
  operation = λ now op e x c w p u.
      exec-Sealed now op e x c w (denied (privileged op) (λ q. ground (arith, p q))) u;
}

-- One instruction of user code, with its faults and whatever the bus answers, changes neither the MTU
-- nor CPUID, and no byte outside the MTU's IMEM bounds but those of the system page 0x3000..0x31ff.
pub run_instruction-Sealed :
    {D : Type 0} (bus : Bus D) (honor : Bool) (now : ℕ) (m : Machine D)
    → m.cpu.sr.system ≡ false
    → Sealed m.cpu (run_instruction bus honor now m).cpu
unfolding IsUser
run_instruction-Sealed bus honor now m u =
    run_instruction-R IsUser Sealed Sealed-IsInstructionFrame bus honor now m u

Any : Status → Type 0
Any s = Unit

SameRom-IsInstructionFrame : IsInstructionFrame Any SameRom
SameRom-IsInstructionFrame = record {
  frame = SameRom-IsFrame;
  registers = λ c d m t i b h. ap (λ (f : ℕ → ℕ). f b) m;
  entry = interrupt-SameRom;
  response = einr-SameRom;
  operation = λ now op e x c w p u. exec-SameRom now op e x w c;
}

-- `execute` changes no byte of ROM, in either mode, whatever the bus answers and on every path: pins,
-- interrupts, faults and stops included.
pub execute-SameRom :
    {D : Type 0} (bus : Bus D) (honor : Bool) (now : ℕ) (m : Machine D)
    → SameRom m.cpu (execute bus honor now m).cpu
unfolding Any
execute-SameRom bus honor now m =
    execute-R Any SameRom SameRom-IsInstructionFrame bus (λ s. tt) honor now m
