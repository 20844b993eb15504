-- ===== src/Cpu/Interrupt/Page.antt =====
-- What interrupts write: the system page 0x3000..0x31ff alone.
use anc.Cpu.Alu.{set_register}
use anc.Base.{ℕ, ◌≤◌, ◌<◌, ◌≡◌, ◌⊎◌, Option, none, some, arith}
use anc.Cpu.State.{Cpu}
use anc.Cpu.Memory.{store_bytes}
use anc.Cpu.Interrupt.{interrupt, einr, enter, no_handler, save_slots, set_register}
use anc.Cpu.Interrupt.Entry.{interrupt_parts, interrupt-interrupt_parts}
use anc.Cpu.Interrupt.Response.{einr_result, einr_lem}

-- The MTU bounds, CPUID and all memory outside the system page are the same.
abbrev pub SystemPage : Cpu → Cpu → Type 0
SystemPage c d =
    (d.mtu ≡ c.mtu)
    × (d.cpuid ≡ c.cpuid)
    × ((b : ℕ) → (b < 0x3000) ⊎ (0x3200 ≤ b) → d.imem b ≡ c.imem b)

-- An interrupt, whatever its vector and code, writes only the system page and keeps the MTU.
pub interrupt-SystemPage :
    (vector : ℕ) (code : Option ℕ) (c : Cpu) → SystemPage c (interrupt vector code c).1
unfolding interrupt_parts no_handler enter save_slots store_bytes
interrupt-SystemPage vector none c =
    rw interrupt-interrupt_parts (ground arith, ground arith, λ b h. ground arith)
interrupt-SystemPage vector (some k) c =
    rw interrupt-interrupt_parts (ground arith, ground arith, λ b h. ground arith)

pub einr-SystemPage : (a p k : ℕ) (c : Cpu) → SystemPage c (einr a p k c).1
unfolding einr_result no_handler enter save_slots store_bytes set_register
einr-SystemPage a p k c = rw einr_lem (ground arith, ground arith, λ b h. ground arith)
