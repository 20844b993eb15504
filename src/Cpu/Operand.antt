-- ===== src/Cpu/Operand.antt =====
-- The operand of an instruction in `execute` of emulator/src/cpu.cc: the `switch (e.mode)` and the
-- chain of conditions behind it.
use anc.Base.{
  ℕ, ◌+◌, ◌-◌, Bool, true, false, not, ◌&&◌, ◌||◌, Option, none, some, ltb, leb, ◌==◌,
  if◌then◌else◌, u8, u16, sign_extend,
}
use anc.Cpu.State.{Cpu}
use anc.Cpu.Exc.{Exc, ok, fault, ◌>>=◌}
use anc.Cpu.Access.{mapped, read, raw_word}
use anc.Isa.Opcode.{Op, code}
use anc.Isa.Encoding.{Mode, Encoding}
use anc.Isa.Valid.{same_mode}

-- `op > IREQ && op <= READ`, the operations on the external bus.
abbrev pub is_io : Op → Bool
is_io op = ltb 0x19 (code op) && leb (code op) 0x1e

abbrev pub is_ireq : Op → Bool
is_ireq op = code op == 0x19

-- The lambda `immediate`.
abbrev pub immediate_at : ℕ → ℕ → Cpu → ℕ
immediate_at width at c = if width == 1 then c.imem at else raw_word c.imem at

-- `e.width == 1 ? uint8_t(reg[r]) : uint16_t(reg[r])`.
abbrev pub register_value : ℕ → ℕ → Cpu → ℕ
register_value width r c = if width == 1 then u8 (c.reg r) else c.reg r

-- `static_cast<int8_t>(reg[r] & 0xff)`, as a 16-bit pattern.
abbrev pub index_of : ℕ → Cpu → ℕ
index_of r c = sign_extend (u8 (c.reg r))

module _ (c : Cpu) (e : Encoding) (io ireq : Bool) (operands : ℕ) where
  abbrev at_address : ℕ → Exc (Option ℕ)
  at_address a = do p ← mapped c a io ireq; ok (some p)

  abbrev through : ℕ → Exc (Option ℕ)
  through index = do
    pointer ← mapped c (raw_word c.imem operands) ireq false
    base ← read c pointer 2
    p ← mapped c (u16 (base + index)) io false
    ok (some p)

  -- The address of the first switch; `none` leaves `has_address` false.
  pub address_of : Mode → Exc (Option ℕ)
  address_of Mode.absolute = at_address (raw_word c.imem operands)
  address_of Mode.reg_absolute = at_address (raw_word c.imem operands)
  address_of Mode.store_absolute = at_address (raw_word c.imem operands)
  address_of Mode.indexed = at_address (u16 (raw_word c.imem operands + index_of e.reg c))
  address_of Mode.store_indexed = at_address (u16 (raw_word c.imem operands + index_of e.reg c))
  address_of Mode.indirect = through 0
  address_of Mode.indirect_indexed = through (index_of e.reg c)
  address_of Mode.pc = at_address (u16 (c.pc + sign_extend (c.imem operands)))
  address_of Mode.reg_pc = at_address (u16 (c.pc + sign_extend (c.imem operands)))
  address_of Mode.bp = at_address (u16 (c.bp + sign_extend (c.imem operands)))
  address_of Mode.reg_bp = at_address (u16 (c.bp + sign_extend (c.imem operands)))
  address_of Mode.store_bp = at_address (u16 (c.bp + sign_extend (c.imem operands)))
  address_of Mode.pc_reg = at_address (u16 (c.pc + index_of e.reg c))
  address_of Mode.bp_reg = at_address (u16 (c.bp + index_of e.reg c))
  address_of Mode.store_bp_reg = at_address (u16 (c.bp + index_of e.reg c))
  address_of _ = ok none

-- The `data` that the first switch leaves.
unfoldable pub register_data : Cpu → Encoding → ℕ → Mode → ℕ
register_data c e operands Mode.immediate = immediate_at e.width operands c
register_data c e operands Mode.reg = register_value e.width e.reg c
register_data c e operands Mode.regs = c.reg e.source
register_data c e operands Mode.reg_immediate = immediate_at e.width operands c
register_data c e operands _ = 0

-- Jumps, CALL, the bus operations and STSR, STSP, STBP take the address and read nothing.
abbrev pub reads_memory : Op → Bool
reads_memory op =
    not (leb 0x22 (code op) && leb (code op) 0x2c)
    && not (code op == 0x04)
    && not (is_io op)
    && not (leb 0x41 (code op) && leb (code op) 0x43)

-- The chain behind the switch.
unfoldable pub data_of : Cpu → Encoding → Op → ℕ → Option ℕ → Exc ℕ
unfolding register_data code
data_of c e op operands address =
    if same_mode e.mode Mode.store_absolute || same_mode e.mode Mode.store_indexed
    then ok (immediate_at e.width (operands + 2) c)
    else if same_mode e.mode Mode.store_bp
    then ok (immediate_at e.width (operands + 1) c)
    else if same_mode e.mode Mode.store_bp_reg
    then ok (immediate_at e.width operands c)
    else if code op == 0x3b || code op == 0x1b || code op == 0x1d
    then ok (register_value e.width e.reg c)
    else elim address [
      | none ↦ ok (register_data c e operands e.mode)
      | some a ↦
          if reads_memory op
          then read c a (if code op == 0x3e then 1 else e.width)
          else ok (register_data c e operands e.mode)
    ]

pub record Operand : Type 0 where
  pub address : ℕ
  pub payload : ℕ
  pub has_address : Bool

abbrev or_zero : Option ℕ → ℕ
or_zero none = 0
or_zero (some a) = a

abbrev is_some : Option ℕ → Bool
is_some none = false
is_some (some a) = true

-- `has_address ? address : data`.
abbrev pub target_of : Operand → ℕ
target_of x = if x.has_address then x.address else x.payload

-- The bus operations check their address once more; a user's word from ROM has to end in bounds.
unfoldable pub bus_operand : Cpu → Encoding → (ℕ → Bool) → Operand → Exc Operand
bus_operand c e is_rom x = do
  a ← mapped c (target_of x) true false
  (if not c.sr.system && is_rom a && ltb (c.mtu 3) (a + e.width - 1)
      then fault 3
      else ok (record x { address = a; has_address = true }))

-- `is_rom` is false everywhere if no mapper is attached.
unfoldable pub operand : Cpu → Encoding → Op → (ℕ → Bool) → ℕ → Exc Operand
unfolding address_of data_of bus_operand code
operand c e op is_rom operands = do
  address ← address_of c e (is_io op) (is_ireq op) operands e.mode
  payload ← data_of c e op operands address
  let x : Operand = record {
    address = or_zero address;
    payload = payload;
    has_address = is_some address;
  }
  if is_io op then bus_operand c e is_rom x else ok x
