-- ===== src/Machine/Run/Compose.antt =====
-- Batches of the worker, in sequence.
use anc.Base.{
  ℕ, ◌≡◌, refl, sym, ap, ◌∙◌, inl, inr, true, false, not, ◌&&◌, List, [], ◌∷◌, ◌++◌, Bool-cases,
}
use anc.Machine.Bus.{Bus}
use anc.Machine.State.{Machine}
use anc.Machine.Run.{batch}
use anc.Machine.Step.{execute}

module _ {D : Type 0} (bus : Bus D) where
  batch_idle :
      (ts : List ℕ) (m : Machine D)
      → (m.cpu.running && not m.cpu.killed) ≡ false
      → batch bus ts m ≡ m
  unfolding batch
  batch_idle [] m h = refl
  batch_idle (t ∷ ts) m h = rw h refl

  batch_turn :
      (t : ℕ) (ts : List ℕ) (m : Machine D)
      → (m.cpu.running && not m.cpu.killed) ≡ true
      → batch bus (t ∷ ts) m ≡ batch bus ts (execute bus true t m)
  unfolding batch
  batch_turn t ts m h = rw h refl

-- Two batches in a row are one batch over both lists of clock readings, wherever a stop, a breakpoint
-- or a halt falls.
pub batch-++ :
    {D : Type 0} (bus : Bus D) (ts us : List ℕ) (m : Machine D)
    → batch bus (ts ++ us) m ≡ batch bus us (batch bus ts m)
batch-++ bus [] us m = unfold batch in refl
batch-++ bus (t ∷ ts) us m = elim (Bool-cases (m.cpu.running && not m.cpu.killed)) [
  | inl h ↦
      batch_turn bus t (ts ++ us) m h
      ∙ batch-++ bus ts us (execute bus true t m)
      ∙ ap (batch bus us) (sym (batch_turn bus t ts m h))
  | inr h ↦
      batch_idle bus ((t ∷ ts) ++ us) m h
      ∙ sym (batch_idle bus us m h)
      ∙ ap (batch bus us) (sym (batch_idle bus (t ∷ ts) m h))
]
