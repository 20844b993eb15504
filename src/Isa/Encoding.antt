-- ===== src/Isa/Encoding.antt =====
-- The addressing byte of common/encoding.hh: `Mode`, `Encoding` and `decode`.
use anc.Base.{ℕ, ◌+◌, ◌/◌, bit_and, ◌||◌, ◌==◌, if◌then◌else◌}

pub data Mode : Type 0 where
  invalid implied immediate reg regs absolute indexed indirect indirect_indexed pc bp pc_reg : Mode
  bp_reg store_bp store_bp_reg store_absolute store_indexed reg_absolute reg_immediate : Mode
  reg_pc reg_bp : Mode

-- `size` counts the bytes behind the two-byte instruction.
pub record Encoding : Type 0 where
  pub mode : Mode
  pub size : ℕ
  pub width : ℕ
  pub reg : ℕ
  pub source : ℕ

-- The mode of the last group, `switch (a & 3)`.
register_form : ℕ → Encoding → Encoding
register_form a e =
    if bit_and a 3 == 0
    then record e { mode = Mode.reg_absolute; size = 2 }
    else if bit_and a 3 == 1
    then record e { mode = Mode.reg_immediate; size = e.width }
    else if bit_and a 3 == 2
    then record e { mode = Mode.reg_pc; size = 1 }
    else record e { mode = Mode.reg_bp; size = 1 }

-- The chain from `a == 3` on.
decode_store : ℕ → Encoding → Encoding
unfolding register_form
decode_store a e =
    let low = bit_and a 0xc7 in
    if a == 3 || a == 11
    then (let w : ℕ = if a == 3 then 1 else 2 in
        record e { mode = Mode.store_bp; width = w; size = 1 + w })
    else if low == 4 || low == 5
    then (let w : ℕ = if bit_and a 7 == 4 then 1 else 2 in
        record e { mode = Mode.store_bp_reg; size = w; width = w })
    else if a == 6 || a == 14
    then (let w : ℕ = if a == 6 then 1 else 2 in
        record e { mode = Mode.store_absolute; width = w; size = 2 + w })
    else if low == 7
    then record e { mode = Mode.store_indexed; width = 1; size = 3 }
    else if bit_and a 0xc0 == 0xc0
    then register_form a (record e { width = if bit_and a 4 == 0 then 2 else 1 })
    else e

unfoldable pub decode : ℕ → Encoding
unfolding decode_store
decode a =
    let low = bit_and a 0xc7 in
    let e : Encoding = record {
      mode = Mode.invalid;
      size = 0;
      width = 2;
      reg = bit_and (a / 8) 7;
      source = bit_and a 7;
    } in
    if a == 0
    then record e { mode = Mode.implied }
    else if a == 8 || a == 16
    then (let w : ℕ = if a == 8 then 1 else 2 in
        record e { mode = Mode.immediate; size = w; width = w })
    else if low == 1 || low == 2
    then record e { mode = Mode.reg; width = if bit_and a 7 == 2 then 1 else 2 }
    else if bit_and a 0xc0 == 0x40
    then record e { mode = Mode.regs }
    else if a == 0x80
    then record e { mode = Mode.absolute; size = 2 }
    else if low == 0x81
    then record e { mode = Mode.indexed; size = 2 }
    else if a == 0x82
    then record e { mode = Mode.indirect; size = 2 }
    else if low == 0x83
    then record e { mode = Mode.indirect_indexed; size = 2 }
    else if a == 0x84 || a == 0x8c
    then record e { mode = if a == 0x84 then Mode.pc else Mode.bp; size = 1 }
    else if low == 0x85
    then record e { mode = Mode.pc_reg }
    else if low == 0x86
    then record e { mode = Mode.bp_reg }
    else decode_store a e
