-- ===== src/Devices/Rom.antt =====
-- The cells of the external memory: `map_rom`, `attach`, `is_rom` and the ROM part of `read` of
-- emulator/src/emem.cc. The image is read by the caller; a device is its presence at an address.
pub mod Images
use anc.Base.{
  ℕ, zero, suc, ◌+◌, ◌-◌, ◌*◌, Bool, false, ◌&&◌, ◌||◌, Option, none, some, List, ltb, leb, ◌==◌,
  if◌then◌else◌, length,
}
use anc.Cpu.Control.{copy_bytes}

pub record Cells : Type 0 where
  pub attached : ℕ → Bool
  pub rom_bytes : ℕ → ℕ
  pub rom_mapped : ℕ → Bool

abbrev pub is_taken : Cells → ℕ → Bool
is_taken m a = m.attached a || m.rom_mapped a

-- Whether one of `count` cells from `base` on is taken.
unfoldable pub overlaps : Cells → ℕ → ℕ → Bool
overlaps m base zero = false
overlaps m base (suc count) = is_taken m base || overlaps m (base + 1) count

-- `rom_mapped[base + offset] = true` for `count` offsets.
unfoldable pub mark : ℕ → ℕ → (ℕ → Bool) → ℕ → Bool
mark base count f a = (leb base a && ltb a (base + count)) || f a

-- `none` is the runtime error of an image that is empty, too long or overlapping.
unfoldable pub map_rom : ℕ → List ℕ → Cells → Option Cells
unfolding overlaps mark copy_bytes
map_rom base image m =
    if length image == 0 || ltb (65536 - base) (length image)
    then none
    else if overlaps m base (length image)
    then none
    else some (record m {
      rom_bytes = copy_bytes image base m.rom_bytes;
      rom_mapped = mark base (length image) m.rom_mapped;
    })

unfoldable pub attach : ℕ → Cells → Option Cells
attach a m =
    if is_taken m a then none else some (record m { attached = λ b. (a == b) || m.attached b })

-- A read of a mapped cell; the second byte of a word is 0 if it is not mapped.
unfoldable pub rom_read : ℕ → ℕ → Cells → ℕ
rom_read width a m =
    if width == 1
    then m.rom_bytes a
    else m.rom_bytes a * 256
      + (if ltb (a + 1) 65536 && m.rom_mapped (a + 1) then m.rom_bytes (a + 1) else 0)
