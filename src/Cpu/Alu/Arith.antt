-- ===== src/Cpu/Alu/Arith.antt =====
-- Addition and subtraction against integer arithmetic.
use anc.Base.{
  ℕ, ◌+◌, ◌<◌, ◌≡◌, ◌⊎◌, true, false, arith, if◌then◌else◌, ◌+ℤ◌, ◌-ℤ◌, signed, out_of_range,
  IsWidth, at_width,
}
use anc.Cpu.Alu.{sum_of, modulus}

-- For operands of the width: the value with the carry is the unsigned sum, overflow tells that the
-- signed sum is out of range, and if it is not, the value stands for it.
abbrev Adds : ℕ → Type 0
Adds width =
    (l r : ℕ)
    → l < modulus width
    → r < modulus width
    → let s = sum_of width l r false in
      (s.value + (if s.carry then modulus width else 0) ≡ l + r)
      × (s.overflow ≡ out_of_range width (signed width l +ℤ signed width r))
      × ((s.overflow ≡ true) ⊎ (signed width s.value ≡ signed width l +ℤ signed width r))

abbrev Subtracts : ℕ → Type 0
Subtracts width =
    (l r : ℕ)
    → l < modulus width
    → r < modulus width
    → let s = sum_of width l r true in
      (s.value + r ≡ l + (if s.carry then modulus width else 0))
      × (s.overflow ≡ out_of_range width (signed width l -ℤ signed width r))
      × ((s.overflow ≡ true) ⊎ (signed width s.value ≡ signed width l -ℤ signed width r))

add_bytes : Adds 1
unfolding sum_of
add_bytes l r hl hr = (ground arith, ground arith, ground arith)

add_words : Adds 2
unfolding sum_of
add_words l r hl hr = (ground arith, ground arith, ground arith)

subtract_bytes : Subtracts 1
unfolding sum_of
subtract_bytes l r hl hr = (ground arith, ground arith, ground arith)

subtract_words : Subtracts 2
unfolding sum_of
subtract_words l r hl hr = (ground arith, ground arith, ground arith)

-- Addition at either width, of operands that fit it: the value and the carry make up the unsigned sum;
-- overflow tells exactly whether the signed sum is out of range, and if it is not, the value stands
-- for it.
pub sum_of-add :
    (width l r : ℕ)
    → IsWidth width
    → l < modulus width
    → r < modulus width
    → let s = sum_of width l r false in
      (s.value + (if s.carry then modulus width else 0) ≡ l + r)
      × (s.overflow ≡ out_of_range width (signed width l +ℤ signed width r))
      × ((s.overflow ≡ true) ⊎ (signed width s.value ≡ signed width l +ℤ signed width r))
sum_of-add width l r w hl hr = at_width Adds add_bytes add_words width w l r hl hr

-- Subtraction at either width, of operands that fit it: the carry is the borrow; overflow tells exactly
-- whether the signed difference is out of range, and if it is not, the value stands for it.
pub sum_of-subtract :
    (width l r : ℕ)
    → IsWidth width
    → l < modulus width
    → r < modulus width
    → let s = sum_of width l r true in
      (s.value + r ≡ l + (if s.carry then modulus width else 0))
      × (s.overflow ≡ out_of_range width (signed width l -ℤ signed width r))
      × ((s.overflow ≡ true) ⊎ (signed width s.value ≡ signed width l -ℤ signed width r))
sum_of-subtract width l r w hl hr =
    at_width Subtracts subtract_bytes subtract_words width w l r hl hr
