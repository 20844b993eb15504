-- ===== src/Cpu/Interrupt/Nmi.antt =====
-- What a handler of a fault finds: the code, the instruction and the interrupted context.
use anc.Cpu.Exc.{fault, ok}
use anc.Base.{ℕ, ◌+◌, ◌≤◌, ◌<◌, ◌≡◌, refl, some, arith, u8}
use anc.Cpu.State.{Cpu}
use anc.Cpu.Status.{to_byte, enter_system}
use anc.Cpu.Status.Laws.{to_byte-lt}
use anc.Cpu.Access.{raw_word}
use anc.Cpu.Memory.{store_bytes}
use anc.Cpu.Interrupt.{interrupt, enter, save_slots, nmi_result, caught, fault, ok}
use anc.Cpu.Interrupt.Entry.{interrupt_parts, interrupt-interrupt_parts, framed}

-- The system stack pointer that firmware has installed.
abbrev pub system_sp : Cpu → ℕ
system_sp c = raw_word c.imem 0x0c

enter_sp : (c : Cpu) → (enter c).sp ≡ system_sp c
unfolding enter save_slots raw_word
enter_sp c = refl

-- The frame from `sp` on, with the slots of the old SP and BP, and R0 with the code.
abbrev pub IsNmiFrame : Cpu → ℕ → ℕ → Cpu → Type 0
IsNmiFrame c pc code d =
    (raw_word d.imem (system_sp c) ≡ pc)
    × (d.imem (system_sp c + 2) ≡ to_byte c.sr)
    × (d.imem (system_sp c + 3) ≡ u8 (c.reg 0))
    × (raw_word d.imem 0x31fe ≡ c.sp)
    × (raw_word d.imem 0x31fc ≡ c.bp)
    × (d.reg 0 ≡ code)
    × (d.sp ≡ system_sp c + 4)

nmi_framed :
    (c : Cpu) (pc code target : ℕ)
    → 0x3000 ≤ system_sp c
    → system_sp c ≤ 0x31f0
    → pc < 65536
    → code < 65536
    → c.sp < 65536
    → c.bp < 65536
    → IsNmiFrame c pc code (framed pc (to_byte c.sr) (some code) target (enter c))
unfolding enter save_slots raw_word store_bytes
nmi_framed c pc code target lo hi p k s b =
    let z = to_byte-lt c.sr in
    (
      ground arith,
      ground arith,
      ground arith,
      ground arith,
      ground arith,
      ground arith,
      ground arith,
    )

-- The exceptional ends of `interrupt` are closed off by the vector and the system stack pointer.
nmi_lem :
    (c : Cpu) (code : ℕ)
    → 1 ≤ raw_word c.imem 4
    → 0x3000 ≤ system_sp c
    → system_sp c ≤ 0x31f0
    → interrupt 4 (some code) c
      ≡ (ok tt, framed c.pc (to_byte c.sr) (some code) (raw_word c.imem 4) (enter c))
unfolding interrupt_parts
nmi_lem c code v lo hi = rw interrupt-interrupt_parts (ground (arith, enter_sp c))

-- A fault at an instruction, with an NMI vector and a valid system stack pointer in memory, always
-- enters the NMI handler: in system mode with I and T clear, the fault's code in R0, and a frame of
-- the instruction's own PC, the old SR and the old L0, beside the old SP and BP in their slots.
pub caught-fault :
    (c : Cpu) (pc code : ℕ)
    → 1 ≤ raw_word c.imem 4
    → 0x3000 ≤ system_sp c
    → system_sp c ≤ 0x31f0
    → pc < 65536
    → code < 65536
    → c.sp < 65536
    → c.bp < 65536
    → ((caught pc (fault code, c)).pc ≡ raw_word c.imem 4)
      × ((caught pc (fault code, c)).sr ≡ enter_system c.sr)
      × ((caught pc (fault code, c)).killed ≡ c.killed)
      × IsNmiFrame c pc code (caught pc (fault code, c))
unfolding caught nmi_result enter
caught-fault c pc code v lo hi p k s b =
    rw (nmi_lem (record c { pc = pc }) code v lo hi) (
      refl,
      refl,
      refl,
      nmi_framed (record c { pc = pc }) pc code (raw_word c.imem 4) lo hi p k s b,
    )
