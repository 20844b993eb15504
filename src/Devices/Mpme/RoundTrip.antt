-- ===== src/Devices/Mpme/RoundTrip.antt =====
-- What a card is written is read back, and a write that the host refuses changes nothing.
use mathlib.Core.Path.{subst}
use anc.Base.{
  ℕ, ◌+◌, ◌≤◌, ◌<◌, ◌≡◌, refl, sym, ◌⊎◌, inl, inr, Bool, true, false, List, arith, ◌==◌, IsWidth,
}
use anc.Cpu.State.{persist_failed}
use anc.Cpu.Exc.{Exc, ok, error}
use anc.Cpu.Memory.{store_bytes}
use anc.Cpu.Alu.{modulus}
use anc.Devices.Mpme.{
  Mpme, set_transfer_width, mpme_write, mpme_read, publish, wire_bytes, write_count,
}

module _ {H : Type 0} (flush : H → ℕ → List ℕ → Bool × H) where
  -- The bus transactions of a store: the address with A clear, the value with A set.
  abbrev pub stored : ℕ → ℕ → ℕ → Mpme H → Exc (Unit {0}) × Mpme H
  stored a v w d =
      mpme_write flush v true
        (set_transfer_width w (mpme_write flush a false (set_transfer_width 2 d)).1)

  abbrev aimed : ℕ → ℕ → Mpme H → Mpme H
  aimed a w d = record d { pointer = a; transfer_width = w }

  count_fits : (a w : ℕ) (d : Mpme H) → IsWidth w → a + w ≤ 65536 → write_count (aimed a w d) ≡ w
  count_fits a w d i fit = ground arith

  stored_lem :
      (a v w : ℕ) (d : Mpme H)
      → IsWidth w
      → a + w ≤ 65536
      → stored a v w d ≡ publish w v (flush d.backing a (wire_bytes w v)) (aimed a w d)
  unfolding mpme_write
  stored_lem a v w d i fit =
      let some_byte : (w == 0) ≡ false = ground arith in rw (count_fits a w d i fit, some_byte) refl

-- How a store ends.
abbrev Ends : {H : Type 0} → ℕ → ℕ → ℕ → Mpme H → Exc (Unit {0}) × Mpme H → Type 0
Ends a v w d r =
    ((r.0 ≡ error persist_failed) × (r.1.memory ≡ d.memory))
    ⊎ ((r.0 ≡ ok tt)
        × ((mpme_read a (set_transfer_width w r.1)).0 ≡ v)
        × ((b : ℕ) → (b < a) ⊎ (a + w ≤ b) → r.1.memory b ≡ d.memory b))

publish-Ends :
    {H : Type 0} (a v w : ℕ) (d : Mpme H) (r : Bool × H)
    → IsWidth w
    → v < modulus w
    → a + w ≤ 65536
    → Ends a v w d (publish w v r (record d { pointer = a; transfer_width = w }))
unfolding publish mpme_read store_bytes
publish-Ends a v w d (true, h) i lt fit = inr (refl, ground arith, λ b o. ground arith)
publish-Ends a v w d (false, h) i lt fit = inl (refl, refl)

-- A store of a byte or a word that fits in the card at its address either throws and leaves the memory
-- as it was, or returns, is read back at that address, and changes no byte but its own.
pub mpme_read-stored :
    {H : Type 0} (flush : H → ℕ → List ℕ → Bool × H) (a v w : ℕ) (d : Mpme H)
    → IsWidth w
    → v < modulus w
    → a + w ≤ 65536
    → (((stored flush a v w d).0 ≡ error persist_failed)
        × ((stored flush a v w d).1.memory ≡ d.memory))
      ⊎ (((stored flush a v w d).0 ≡ ok tt)
          × ((mpme_read a (set_transfer_width w (stored flush a v w d).1)).0 ≡ v)
          × ((b : ℕ) → (b < a) ⊎ (a + w ≤ b) → (stored flush a v w d).1.memory b ≡ d.memory b))
mpme_read-stored flush a v w d i lt fit =
    subst (Ends a v w d) (sym (stored_lem flush a v w d i fit))
      (publish-Ends a v w d (flush d.backing a (wire_bytes w v)) i lt fit)
