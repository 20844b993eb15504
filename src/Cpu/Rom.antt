-- ===== src/Cpu/Rom.antt =====
-- ROM and the processor: no guest store reaches 0xff00..0xffff.
use anc.Cpu.Frame.Exec.{exec-Keeps}
use anc.Cpu.Alu.{restore_status}
use anc.Cpu.Operand.{Operand}
use anc.Cpu.Exec.{exec}
use anc.Isa.Encoding.{Encoding}
use anc.Cpu.Interrupt.Page.{einr-SystemPage, interrupt-SystemPage}
use anc.Isa.Opcode.{Op, privileged}
use anc.Base.{
  ℕ, ◌≤◌, ◌≡◌, refl, ap, ◌∙◌, ◌≢◌, inl, inr, true, Option, none, some, arith, Bool-cases,
}
use anc.Cpu.State.{Cpu}
use anc.Cpu.Frame.{Keeps, IsFrame, IsStepFrame}
use anc.Cpu.Access.{check, rom_addr}
use anc.Cpu.Interrupt.{einr, interrupt}
use anc.Cpu.Memory.{write, store_bytes}

-- The bytes from the ROM's first address on are the same.
abbrev pub SameRom : Cpu → Cpu → Type 0
SameRom c d = (b : ℕ) → rom_addr ≤ b → d.imem b ≡ c.imem b

pub SameRom-IsFrame : IsFrame SameRom
SameRom-IsFrame = record { same = λ c b h. refl; chain = λ c d e p q b h. q b h ∙ p b h }

pub write-SameRom : (a v w : ℕ) → 1 ≤ w → Keeps SameRom (write a v w)
unfolding write check store_bytes
write-SameRom a v w pos c b h = ground arith

pub SameRom-IsStepFrame : IsStepFrame SameRom
SameRom-IsStepFrame = record {
  frame = SameRom-IsFrame;
  quiet = λ c d e _ _ _ b h. ap (λ (m : ℕ → ℕ). m b) e;
  writes = write-SameRom;
}

pub interrupt-SameRom : (vector : ℕ) (code : Option ℕ) → Keeps SameRom (interrupt vector code)
interrupt-SameRom vector code c b h = (interrupt-SystemPage vector code c).2 b (inr (omega arith))

pub einr-SameRom : (a p k : ℕ) → Keeps SameRom (einr a p k)
einr-SameRom a p k c b h = (einr-SystemPage a p k c).2 b (inr (omega arith))

-- The privileged operations but RESET write no memory.
privileged_imem :
    (now : ℕ) (op : Op) (e : Encoding) (x : Operand) (c : Cpu)
    → privileged op ≡ true
    → op ≢ Op.reset
    → (exec now op e x c).1.imem ≡ c.imem
unfolding privileged exec restore_status
privileged_imem now Op.reset e x c p n = absurd (n refl)
privileged_imem now op e x c p n = ground arith

-- No operation of the switch changes ROM.
pub exec-SameRom :
    (now : ℕ) (op : Op) (e : Encoding) (x : Operand) → 1 ≤ e.width → Keeps SameRom (exec now op e x)
exec-SameRom now Op.reset e x w c = unfold exec in interrupt-SameRom 4 (some 5) c
exec-SameRom now Op.syscall e x w c = unfold exec in interrupt-SameRom 6 none c
exec-SameRom now op e x w c = elim (Bool-cases (privileged op)) [
  | inl p ↦ λ b h. ap (λ (m : ℕ → ℕ). m b) (privileged_imem now op e x c p (λ q. cc))
  | inr p ↦ exec-Keeps SameRom SameRom-IsStepFrame now op e x w p (λ q. cc) c
]
