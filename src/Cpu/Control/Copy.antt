-- ===== src/Cpu/Control/Copy.antt =====
-- `std::copy` into memory, as `CPU::load` and `EmemMapper::map_rom` use it.
use anc.Base.{
  ℕ, zero, suc, ◌+◌, ◌≤◌, ◌<◌, ◌≡◌, refl, ap, ◌∙◌, ◌⊎◌, inl, inr, some, List, [], ◌∷◌, arith,
  length, get_elem?, update,
}
use anc.Cpu.Control.{copy_bytes}

-- `std::copy` changes its own span only.
pub copy_outside :
    (xs : List ℕ) (base : ℕ) (m : ℕ → ℕ) (a : ℕ)
    → (a < base) ⊎ (base + length xs ≤ a)
    → copy_bytes xs base m a ≡ m a
unfolding copy_bytes
copy_outside [] base m a h = refl
copy_outside (x ∷ xs) base m a (inl lo) =
    copy_outside xs (base + 1) (update m base x) a (inl (omega arith)) ∙ ground arith
copy_outside (x ∷ xs) base m a (inr hi) =
    copy_outside xs (base + 1) (update m base x) a (inr (omega arith)) ∙ ground arith

-- Each byte copied is found at its offset.
pub copy_inside :
    (xs : List ℕ) (base : ℕ) (m : ℕ → ℕ) (i b : ℕ)
    → get_elem? xs i ≡ some b
    → copy_bytes xs base m (base + i) ≡ b
unfolding copy_bytes
copy_inside [] base m i b h = cc
copy_inside (x ∷ xs) base m zero b h =
    let here : update m base x (base + 0) ≡ x = ground arith in
    let same : x ≡ b = cc in
    copy_outside xs (base + 1) (update m base x) (base + 0) (inl (omega arith)) ∙ here ∙ same
copy_inside (x ∷ xs) base m (suc i) b h =
    let at : base + suc i ≡ base + 1 + i = omega arith in
    ap (copy_bytes xs (base + 1) (update m base x)) at
    ∙ copy_inside xs (base + 1) (update m base x) i b h
