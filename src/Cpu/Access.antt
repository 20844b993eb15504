-- ===== src/Cpu/Access.antt =====
-- Addresses and checked reads of emulator/src/cpu.cc: `mapped`, `check`, `read`, `stack_address`.
use anc.Base.{ℕ, ◌+◌, ◌-◌, ◌*◌, Bool, false, not, ◌&&◌, ◌||◌, ltb, leb, ◌==◌, if◌then◌else◌, u16}
use anc.Cpu.State.{Cpu}
use anc.Cpu.Exc.{Exc, ok, fault, ◌>>◌}

abbrev pub max_mem : ℕ
max_mem = 65536

abbrev pub rom_addr : ℕ
rom_addr = 0xff00

unfoldable pub mapped : Cpu → ℕ → Bool → Bool → Exc ℕ
mapped c a external is_ireq =
    let physical = c.mtu 0 + a in
    if c.sr.system
    then ok a
    else if external
    then (if not is_ireq && (ltb a (c.mtu 2) || ltb (c.mtu 3) a) then fault 3 else ok a)
    else if ltb (c.mtu 1) physical || leb max_mem physical
    then fault (if external then 3 else 2)
    else ok (u16 physical)

unfoldable pub check : Cpu → ℕ → ℕ → Bool → Exc (Unit {0})
check c a width writing =
    if ltb max_mem (a + width)
    then fault 2
    else if writing && ltb rom_addr (a + width)
    then fault 2
    else if not c.sr.system && (ltb a (c.mtu 0) || ltb (c.mtu 1) (a + width - 1))
    then fault 2
    else ok tt

-- The big-endian word, with no check.
unfoldable pub raw_word : (ℕ → ℕ) → ℕ → ℕ
raw_word m a = m a * 256 + m (a + 1)

unfoldable pub read : Cpu → ℕ → ℕ → Exc ℕ
read c a width = do check c a width false; ok (if width == 1 then c.imem a else raw_word c.imem a)

unfoldable pub stack_address : Cpu → ℕ → ℕ → Exc ℕ
stack_address c logical width =
    let physical = logical + (if c.sr.system then 0 else c.mtu 0) in
    if ltb max_mem (logical + width)
      || ltb rom_addr (physical + width)
      || (not c.sr.system && (ltb physical (c.mtu 4) || ltb (c.mtu 5) (physical + width - 1)))
    then fault 4
    else ok (u16 physical)
