-- ===== src/Afs/Content/Buffers.antt =====
-- What texts, words and copies change in a buffer, and what reads back.
use anc.Cpu.Control.Copy.{copy_outside}
use anc.Cpu.Control.{copy_bytes}
use anc.Cpu.Control.Inspect.{slice}
use anc.Afs.Layout.{Buffer, clear, get_text, set_text, set_word, get_word}
use anc.Base.{
  ℕ, zero, suc, ◌+◌, ◌≤◌, ◌<◌, ◌≡◌, refl, ap, ◌∙◌, ◌⊎◌, inl, inr, List, ◌∷◌, arith, ◌==◌,
  Bool-cases, length, update,
}

-- The bytes from `lo` on and below `hi` are the same.
abbrev pub Agree : ℕ → ℕ → Buffer → Buffer → Type 0
Agree lo hi m m' = (x : ℕ) → lo ≤ x → x < hi → m' x ≡ m x

abbrev pub Outside : ℕ → ℕ → ℕ → Type 0
Outside at size x = (x < at) ⊎ (at + size ≤ x)

pub clear-Outside : (at size : ℕ) (m : Buffer) (x : ℕ) → Outside at size x → clear at size m x ≡ m x
unfolding clear
clear-Outside at size m x h = ground arith

pub clear_inside :
    (at size : ℕ) (m : Buffer) (x : ℕ) → at ≤ x → x < at + size → clear at size m x ≡ 0
unfolding clear
clear_inside at size m x lo hi = ground arith

pub set_text-Outside :
    (size at : ℕ) (value : List ℕ) (m : Buffer) (x : ℕ)
    → length value ≤ size
    → Outside at size x
    → set_text size at value m x ≡ m x
unfolding set_text
set_text-Outside size at value m x fits (inl h) =
    copy_outside value at (clear at size m) x (inl h) ∙ clear-Outside at size m x (inl h)
set_text-Outside size at value m x fits (inr h) =
    copy_outside value at (clear at size m) x (inr (omega arith))
    ∙ clear-Outside at size m x (inr h)

pub get_text-le : (size at : ℕ) (m : Buffer) → length (get_text size at m) ≤ size
unfolding get_text
get_text-le zero at m = omega arith
get_text-le (suc size) at m = ground (arith, get_text-le size (at + 1) m)

pub get_text_same :
    (size at : ℕ) (m m' : Buffer)
    → Agree at (at + size) m m'
    → get_text size at m' ≡ get_text size at m
unfolding get_text
get_text_same zero at m m' h = refl
get_text_same (suc size) at m m' h =
    let here = h at (omega arith) (omega arith) in
    let later = get_text_same size (at + 1) m m' (λ x lo hi. h x (omega arith) (omega arith)) in
    rw (here, later) refl

-- A text copied over zeros is read back.
get_text-copy :
    (size at : ℕ) (m0 m : Buffer)
    → ((x : ℕ) → at ≤ x → x < at + size → m x ≡ 0)
    → get_text size at (copy_bytes (get_text size at m0) at m) ≡ get_text size at m0
unfolding get_text copy_bytes
get_text-copy zero at m0 m zeros = refl
get_text-copy (suc size) at m0 m zeros = elim (Bool-cases (m0 at == 0)) [
  | inl e ↦ rw e (rw (zeros at (omega arith) (omega arith)) refl)
  | inr e ↦
      let v = m0 at in
      let rest = get_text size (at + 1) m0 in
      let below = copy_outside rest (at + 1) (update m at v) at (inl (omega arith)) in
      let here : update m at v at ≡ v = ground arith in
      let head = below ∙ here in
      let free = λ (x : ℕ) (lo : at + 1 ≤ x) (hi : x < at + 1 + size).
        let kept : update m at v x ≡ m x = ground arith in
        kept ∙ zeros x (omega arith) (omega arith) in
      rw e (rw (head, e) (ap (λ ys. v ∷ ys) (get_text-copy size (at + 1) m0 (update m at v) free)))
]

pub get_text-set_text :
    (size at : ℕ) (m0 m : Buffer)
    → get_text size at (set_text size at (get_text size at m0) m) ≡ get_text size at m0
unfolding set_text
get_text-set_text size at m0 m = get_text-copy size at m0 (clear at size m) (clear_inside at size m)

pub slice_same : (n at : ℕ) (m m' : Buffer) → Agree at (at + n) m m' → slice n at m' ≡ slice n at m
unfolding slice
slice_same zero at m m' h = refl
slice_same (suc n) at m m' h =
    let here = h at (omega arith) (omega arith) in
    let later = slice_same n (at + 1) m m' (λ x lo hi. h x (omega arith) (omega arith)) in
    rw (here, later) refl

pub set_word-Outside : (at v : ℕ) (m : Buffer) (x : ℕ) → Outside at 2 x → set_word at v m x ≡ m x
unfolding set_word
set_word-Outside at v m x h = ground arith

pub get_word-set_word : (at v : ℕ) (m : Buffer) → v < 65536 → get_word at (set_word at v m) ≡ v
unfolding set_word
get_word-set_word at v m h = ground arith
