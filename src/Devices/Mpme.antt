-- ===== src/Devices/Mpme.antt =====
-- The memory card `MpmeDevice` of emulator/src/emem.cc, which persists what it is written.
-- The host file is a parameter: `flush` seeks, writes the bytes at an offset and flushes, and tells
-- whether the stream is good afterwards.
pub mod RoundTrip
use anc.Base.{ℕ, ◌+◌, ◌*◌, ◌/◌, Bool, true, false, not, List, [], ◌∷◌, ◌==◌, if◌then◌else◌, u8}
use anc.Cpu.State.{persist_failed}
use anc.Cpu.Exc.{Exc, ok, error}
use anc.Cpu.Memory.{store_bytes}

pub record Mpme (H : Type 0) : Type 0 where
  pub memory : ℕ → ℕ
  pub pointer : ℕ
  pub transfer_width : ℕ
  pub backing : H

abbrev pub set_transfer_width : {H : Type 0} → ℕ → Mpme H → Mpme H
set_transfer_width width d = record d { transfer_width = width }

-- A word cannot cross the chip's final byte.
abbrev pub write_count : {H : Type 0} → Mpme H → ℕ
write_count d = if d.transfer_width == 1 then 1 else if d.pointer == 0xffff then 0 else 2

abbrev pub wire_bytes : ℕ → ℕ → List ℕ
wire_bytes count value = if count == 1 then u8 value ∷ [] else u8 (value / 256) ∷ u8 value ∷ []

-- The memory changes only after the host write has succeeded.
unfoldable pub publish : {H : Type 0} → ℕ → ℕ → Bool × H → Mpme H → Exc (Unit {0}) × Mpme H
publish count value (true, h) d =
    (ok tt, record d { memory = store_bytes d.pointer value count d.memory; backing = h })
publish count value (false, h) d = (error persist_failed, record d { backing = h })

-- With the flag A clear a write sets the pointer, with A set it stores at the pointer.
unfoldable pub mpme_write :
    {H : Type 0} → (H → ℕ → List ℕ → Bool × H) → ℕ → Bool → Mpme H → Exc (Unit {0}) × Mpme H
unfolding publish
mpme_write flush value additional d =
    let count = write_count d in
    if not additional
    then (ok tt, record d { pointer = value })
    else if count == 0
    then (ok tt, d)
    else publish count value (flush d.backing d.pointer (wire_bytes count value)) d

unfoldable pub mpme_read : {H : Type 0} → ℕ → Mpme H → ℕ × Mpme H
mpme_read value d = (
  (if d.transfer_width == 1
      then d.memory value
      else d.memory value * 256 + (if value == 0xffff then 0 else d.memory (value + 1))),
  record d { pointer = value },
)
