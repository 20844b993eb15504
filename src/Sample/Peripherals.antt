-- ===== src/Sample/Peripherals.antt =====
-- Instances of the theorems on devices.
use anc.Base.{
  ℕ, ◌+◌, ◌≤◌, ◌<◌, ◌≡◌, refl, ◌⊎◌, inl, inr, Bool, true, false, ◌&&◌, List, [], ◌∷◌, arith, ltb,
  leb,
}
use anc.Cpu.Exc.{ok, error}
use anc.Cpu.State.{persist_failed}
use anc.Cpu.Control.{copy_bytes}
use anc.Devices.Keyboard.History.{inputs, polls, idle, inputs_lem, polls-inputs}
use anc.Devices.Mpme.{Mpme, mpme_read, set_transfer_width}
use anc.Devices.Mpme.RoundTrip.{stored, mpme_read-stored}
use anc.Devices.Rom.{Cells, is_taken, map_rom, rom_read, overlaps, mark}
use anc.Devices.Rom.Images.{IsApart, mapping-IsApart, rom_read-map_rom}

abbrev presses : List ℕ
presses = 0x61 ∷ 0x0a ∷ 0x62 ∷ []

inputs_lem_example : ((inputs presses idle).events ≡ presses) × ((inputs presses idle).dropped ≡ 0)
inputs_lem_example = inputs_lem presses idle (omega arith) (omega arith) refl

polls-inputs_example : polls 3 (inputs presses idle) ≡ presses
polls-inputs_example = polls-inputs presses (omega arith) refl

-- A card on a file that takes every write.
abbrev card : Mpme (Unit {0})
card = record { memory = λ _. 0; pointer = 0; transfer_width = 2; backing = tt }

abbrev takes_all : Unit {0} → ℕ → List ℕ → Bool × Unit {0}
takes_all h at bs = (true, h)

mpme_read-stored_example :
    (((stored takes_all 0x40 0x1234 2 card).0 ≡ error persist_failed)
      × ((stored takes_all 0x40 0x1234 2 card).1.memory ≡ card.memory))
    ⊎ (((stored takes_all 0x40 0x1234 2 card).0 ≡ ok tt)
        × ((mpme_read 0x40 (set_transfer_width 2 (stored takes_all 0x40 0x1234 2 card).1)).0
            ≡ 0x1234)
        × ((b : ℕ)
            → (b < 0x40) ⊎ (0x42 ≤ b)
            → (stored takes_all 0x40 0x1234 2 card).1.memory b ≡ card.memory b))
mpme_read-stored_example =
    mpme_read-stored takes_all 0x40 0x1234 2 card (inr refl) (omega arith) (omega arith)

-- No cell is taken; an image of two bytes at 0x100.
abbrev vacant : Cells
vacant = record { attached = λ _. false; rom_bytes = λ _. 0; rom_mapped = λ _. false }

abbrev first_image : Cells
unfolding mark copy_bytes
first_image = record vacant {
  rom_bytes = copy_bytes (7 ∷ 8 ∷ []) 0x100 vacant.rom_bytes;
  rom_mapped = mark 0x100 2 vacant.rom_mapped;
}

mapping-IsApart_example : IsApart first_image
unfolding map_rom overlaps first_image
mapping-IsApart_example =
    mapping-IsApart 0x100 (7 ∷ 8 ∷ []) vacant first_image (λ a. refl) (inl refl)

rom_read-map_rom_example :
    (first_image.rom_mapped 0x101 ≡ true)
    × (rom_read 1 0x101 first_image ≡ 8)
    × ((((leb 0x100 0x200 && ltb 0x200 (0x100 + 2)) ≡ true) × (is_taken vacant 0x200 ≡ false))
        ⊎ ((first_image.rom_mapped 0x200 ≡ vacant.rom_mapped 0x200)
            × (first_image.rom_bytes 0x200 ≡ vacant.rom_bytes 0x200)))
    × (first_image.attached 0x200 ≡ vacant.attached 0x200)
unfolding map_rom overlaps first_image mark copy_bytes
rom_read-map_rom_example =
    rom_read-map_rom 0x100 (7 ∷ 8 ∷ []) vacant first_image 1 8 0x200 refl refl
