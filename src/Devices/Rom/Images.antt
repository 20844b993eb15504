-- ===== src/Devices/Rom/Images.antt =====
-- Images and devices keep apart, and a mapped image is read back.
use anc.Cpu.Control.Copy.{copy_inside, copy_outside}
use mathlib.Core.Path.{subst}
use anc.Base.{
  ℕ, zero, suc, ◌+◌, ◌≤◌, ◌<◌, ◌≡◌, refl, ◌⊎◌, inl, inr, true, false, ◌&&◌, ◌||◌, some, List, [],
  ◌∷◌, arith, ltb, leb, ◌==◌, ==_iff, Bool-cases, length, get_elem?,
}
use anc.Cpu.Control.{copy_bytes}
use anc.Devices.Rom.{Cells, is_taken, overlaps, mark, map_rom, attach, rom_read}

overlaps_free :
    (m : Cells) (base n a : ℕ)
    → overlaps m base n ≡ false
    → base ≤ a
    → a < base + n
    → is_taken m a ≡ false
unfolding overlaps
overlaps_free m base zero a h lo hi = absurd (omega arith)
overlaps_free m base (suc n) a h lo hi = elim (Bool-cases (base == a)) [
  | inl e ↦
      let same : base ≡ a = (==_iff base a).0 e in
      let free : is_taken m base ≡ false = ground (arith, h) in
      subst (λ b. is_taken m b ≡ false) same free
  | inr e ↦
      let later : base + 1 ≤ a = ground arith in
      let rest : overlaps m (base + 1) n ≡ false = ground (arith, h) in
      overlaps_free m (base + 1) n a rest later (omega arith)
]

-- Images and devices are apart.
abbrev pub IsApart : Cells → Type 0
IsApart m = (a : ℕ) → (m.attached a && m.rom_mapped a) ≡ false

-- What an accepted image has passed, and the cells after it.
map_rom_result :
    (base : ℕ) (image : List ℕ) (m r : Cells)
    → map_rom base image m ≡ some r
    → (overlaps m base (length image) ≡ false)
      × (base + length image ≤ 65536)
      × (r ≡ record m {
        rom_bytes = copy_bytes image base m.rom_bytes;
        rom_mapped = mark base (length image) m.rom_mapped;
      })
unfolding map_rom
map_rom_result base image m r h = (ground (arith, h), ground (arith, h), ground (arith, h))

attach_result :
    (a : ℕ) (m r : Cells)
    → attach a m ≡ some r
    → (is_taken m a ≡ false) × (r ≡ record m { attached = λ b. (a == b) || m.attached b })
unfolding attach
attach_result a m r h = (ground (arith, h), ground (arith, h))

-- An address of the image is free in the cells before.
module _ (m : Cells) (base n : ℕ) (free : overlaps m base n ≡ false) where
  inside_free : (a : ℕ) → (leb base a && ltb a (base + n)) ≡ true → is_taken m a ≡ false
  inside_free a h =
      let lo : base ≤ a = ground arith in
      let hi : a < base + n = ground arith in overlaps_free m base n a free lo hi

  mapped_outside : (a : ℕ) → m.rom_mapped a ≡ true → (leb base a && ltb a (base + n)) ≡ false
  mapped_outside a h = elim (Bool-cases (leb base a && ltb a (base + n))) [
    | inl t ↦ let clear = inside_free a t in absurd (ground (arith, clear, h))
    | inr f ↦ f
  ]

  marked_apart :
      (a : ℕ)
      → (m.attached a && m.rom_mapped a) ≡ false
      → (m.attached a && mark base n m.rom_mapped a) ≡ false
  unfolding mark
  marked_apart a apart = elim (Bool-cases (leb base a && ltb a (base + n))) [
    | inl t ↦ let clear = inside_free a t in ground (arith, clear)
    | inr f ↦ rw f apart
  ]

beyond : (base n a : ℕ) → (leb base a && ltb a (base + n)) ≡ false → (a < base) ⊎ (base + n ≤ a)
beyond base n a h = ground arith

get_elem?_lt : (xs : List ℕ) (i b : ℕ) → get_elem? xs i ≡ some b → i < length xs
get_elem?_lt [] i b h = cc
get_elem?_lt (x ∷ xs) zero b h = omega arith
get_elem?_lt (x ∷ xs) (suc i) b h = let rest = get_elem?_lt xs i b h in omega arith

attached_apart :
    (m : Cells) (base a : ℕ)
    → is_taken m base ≡ false
    → (m.attached a && m.rom_mapped a) ≡ false
    → (((base == a) || m.attached a) && m.rom_mapped a) ≡ false
attached_apart m base a free apart = elim (Bool-cases (base == a)) [
  | inl e ↦
      let same : base ≡ a = (==_iff base a).0 e in
      let here : is_taken m a ≡ false = subst (λ b. is_taken m b ≡ false) same free in
      ground (arith, here)
  | inr e ↦ rw e apart
]

-- `map_rom` and `attach` keep devices and ROM cells apart: an address has at most one of them.
pub mapping-IsApart :
    (base : ℕ) (image : List ℕ) (m r : Cells)
    → IsApart m
    → (map_rom base image m ≡ some r) ⊎ (attach base m ≡ some r)
    → IsApart r
mapping-IsApart base image m r apart (inl h) a =
    let (free, fits, same) = map_rom_result base image m r h in
    rw same (marked_apart m base (length image) free a (apart a))
mapping-IsApart base image m r apart (inr h) a =
    let (free, same) = attach_result base m r h in rw same (attached_apart m base a free (apart a))

-- Once an image is mapped, also as the first, each of its bytes is read back from its cell. Any other
-- address is as it was: it is an address of the image, which had neither a device nor a ROM cell before,
-- or it is mapped and has the byte as before. No device is attached or detached.
pub rom_read-map_rom :
    (base : ℕ) (image : List ℕ) (m r : Cells) (i b a : ℕ)
    → map_rom base image m ≡ some r
    → get_elem? image i ≡ some b
    → (r.rom_mapped (base + i) ≡ true)
      × (rom_read 1 (base + i) r ≡ b)
      × ((((leb base a && ltb a (base + length image)) ≡ true) × (is_taken m a ≡ false))
          ⊎ ((r.rom_mapped a ≡ m.rom_mapped a) × (r.rom_bytes a ≡ m.rom_bytes a)))
      × (r.attached a ≡ m.attached a)
unfolding rom_read mark
rom_read-map_rom base image m r i b a h g =
    let (free, fits, same) = map_rom_result base image m r h in
    let low = get_elem?_lt image i b g in
    let others : (((leb base a && ltb a (base + length image)) ≡ true) × (is_taken m a ≡ false))
        ⊎ ((mark base (length image) m.rom_mapped a ≡ m.rom_mapped a)
            × (copy_bytes image base m.rom_bytes a ≡ m.rom_bytes a)) =
      elim (Bool-cases (leb base a && ltb a (base + length image))) [
        | inl t ↦ inl (t, inside_free m base (length image) free a t)
        | inr f ↦
            inr (rw f refl, copy_outside image base m.rom_bytes a (beyond base (length image) a f))
      ] in
    rw same (ground (arith, low), copy_inside image base m.rom_bytes i b g, others, refl)
