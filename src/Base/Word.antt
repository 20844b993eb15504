-- ===== src/Base/Word.antt =====
-- Casts to the fixed widths, sign extension, and an array as a function with a write.
use Prim.Native.Nat.{ℕ, ◌+◌, ◌%◌}
use mathlib.Core.Path.{◌≡◌, sym, subst}
use mathlib.Core.Logic.{◌⊎◌, inl, inr}
use anc.Base.Tests.{ltb, ◌==◌, if◌then◌else◌}

abbrev pub u8 : ℕ → ℕ
u8 n = n % 256

abbrev pub u16 : ℕ → ℕ
u16 n = n % 65536

-- The 16-bit pattern of `static_cast<int8_t>(b)` widened to an `int`.
abbrev pub sign_extend : ℕ → ℕ
sign_extend b = if ltb b 128 then b else b + 65280

-- `array[i] = v`.
abbrev pub update : (ℕ → ℕ) → ℕ → ℕ → ℕ → ℕ
update f i v j = if i == j then v else f j

-- The widths of operands, in bytes.
abbrev pub IsWidth : ℕ → Type 0
IsWidth w = (w ≡ 1) ⊎ (w ≡ 2)

pub at_width {ℓ} : (P : ℕ → Type ℓ) → P 1 → P 2 → (w : ℕ) → IsWidth w → P w
at_width P one two w (inl e) = subst P (sym e) one
at_width P one two w (inr e) = subst P (sym e) two
