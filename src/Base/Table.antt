-- ===== src/Base/Table.antt =====
-- A law over a small range, checked at every value by evaluation.
use Prim.Native.Nat.{ℕ, zero, suc, ◌<◌}
use mathlib.Core.Path.{◌≡◌}
use mathlib.Core.Bool.{Bool, true, ◌&&◌}
use native.Mathlib.Omega.{arith}
use anc.Base.Tests.{◌==◌, ==_iff}

unfoldable pub all_below : ℕ → (ℕ → Bool) → Bool
all_below zero law = true
all_below (suc count) law = all_below count law && law count

module _ (law : ℕ → Bool) where
  entry : (count i : ℕ) → i < count → all_below count law ≡ true → law i ≡ true
  unfolding all_below
  entry zero i small table = absurd (omega arith)
  entry (suc count) i small table = ground (arith, entry count i)

-- A table that was evaluated to true holds at each of its entries.
pub all_below_sound :
    (count : ℕ) (law : ℕ → Bool) (i : ℕ) → all_below count law ≡ true → i < count → law i ≡ true
all_below_sound count law i table small = entry law count i small table

-- Two functions that agree on a table agree at each of its values.
pub agree_below :
    (n : ℕ) (f g : ℕ → ℕ) (x : ℕ) → all_below n (λ i. f i == g i) ≡ true → x < n → f x ≡ g x
agree_below n f g x h lt = (==_iff (f x) (g x)).0 (all_below_sound n (λ i. f i == g i) x h lt)
