-- ===== src/Devices/Emem.antt =====
-- `EmemMapper` of emulator/src/emem.cc in a build without SDL, whose devices are keyboards and memory
-- cards: its transactions, and what the processor uses of it as a bus.
use anc.Base.{ℕ, ◌+◌, ◌*◌, Bool, ◌&&◌, Option, none, some, List, ltb, ◌==◌, if◌then◌else◌}
use anc.Cpu.Exc.{Exc, ok}
use anc.Machine.Bus.{Bus}
use anc.Machine.Io.{keyboard_address}
use anc.Devices.Keyboard.{Keyboard, input, pending, consume, cpu_write, cpu_read}
use anc.Devices.Mpme.{Mpme, set_transfer_width, mpme_write, mpme_read}

pub data Device (H : Type 0) : Type 0 where
  keys : Keyboard → Device H
  card : Mpme H → Device H

pub record Emem (H : Type 0) : Type 0 where
  pub devices : ℕ → Option (Device H)
  pub rom_bytes : ℕ → ℕ
  pub rom_mapped : ℕ → Bool

module _ {H : Type 0} (flush : H → ℕ → List ℕ → Bool × H) where
  -- `devices[address] = device`.
  abbrev replace : ℕ → Device H → Emem H → Emem H
  replace address device m = record m {
    devices = λ a. if address == a then some device else m.devices a;
  }

  -- The keyboard does not look at the width.
  unfoldable pub emem_write : Emem H → ℕ → ℕ → Bool → ℕ → Exc (Unit {0}) × Emem H
  emem_write m value address additional width = elim (m.devices address) [
    | none ↦ (ok tt, m)
    | some (keys k) ↦ (ok tt, replace address (keys (cpu_write value k)) m)
    | some (card d) ↦
        let (r, d') = mpme_write flush value additional (set_transfer_width width d) in
        (r, replace address (card d') m)
  ]

  -- A ROM cell ignores the payload; an address with no device reads 0.
  unfoldable pub emem_read : Emem H → ℕ → ℕ → Bool → ℕ → Exc ℕ × Emem H
  emem_read m value address additional width =
      if m.rom_mapped address
      then (
        ok (
            if width == 1
            then m.rom_bytes address
            else m.rom_bytes address * 256
              + (if ltb (address + 1) 65536 && m.rom_mapped (address + 1)
                  then m.rom_bytes (address + 1)
                  else 0)),
        m,
      )
      else elim (m.devices address) [
        | none ↦ (ok 0, m)
        | some (keys k) ↦ let (v, k') = cpu_read value k in (ok v, replace address (keys k') m)
        | some (card d) ↦
            let (v, d') = mpme_read value (set_transfer_width width d) in
            (ok v, replace address (card d') m)
      ]

  -- The identity of what is at an address: ROM is 0, nothing is 0xffff.
  unfoldable pub emem_info_req : Emem H → ℕ → ℕ
  emem_info_req m address = if m.rom_mapped address then 0 else elim (m.devices address) [
    | none ↦ 0xffff
    | some (keys k) ↦ 0x0301
    | some (card d) ↦ 0x0102
  ]

  -- A method of the keyboard at its default address, if there is one.
  abbrev on_keyboard : (Keyboard → Keyboard) → Emem H → Emem H
  on_keyboard f m = elim (m.devices keyboard_address) [
    | none ↦ m
    | some (keys k) ↦ replace keyboard_address (keys (f k)) m
    | some (card d) ↦ m
  ]

  unfoldable pub keyboard_input : ℕ → Emem H → Emem H
  keyboard_input value m = on_keyboard (input value) m

  unfoldable pub keyboard_pending : Emem H → ℕ
  keyboard_pending m = elim (m.devices keyboard_address) [
    | none ↦ 0
    | some (keys k) ↦ pending k
    | some (card d) ↦ 0
  ]

  -- The mapper as the processor's bus.
  abbrev pub emem_bus : Bus (Emem H)
  emem_bus = record {
    info_req = emem_info_req;
    is_rom = λ m a. m.rom_mapped a;
    read = λ m value a additional width. emem_read m value a additional width;
    write = λ m value a additional width high. emem_write m value a additional width;
    pending = keyboard_pending;
    consume = on_keyboard consume;
  }
