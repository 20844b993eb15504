-- ===== src/Devices/Keyboard/History.antt =====
-- What the keyboard holds after any history of events, and what polling it gives.
use mathlib.Core.Path.{subst}
use Prim.Native.Nat.{min}
use anc.Base.{
  ℕ, zero, suc, ◌+◌, ◌-◌, ◌≤◌, ◌<◌, ◌≡◌, refl, sym, ap, ◌∙◌, inl, inr, Bool, true, false, not, ◌&&◌,
  List, [], ◌∷◌, ◌++◌, arith, ◌==◌, ==_iff, Bool-cases, length, take, take_zero,
}
use anc.Devices.Keyboard.{Keyboard, capacity, input, cpu_read}

-- The events of a history, in order.
unfoldable pub inputs : List ℕ → Keyboard → Keyboard
inputs [] k = k
inputs (v ∷ vs) k = inputs vs (input v k)

abbrev pub all_events : List ℕ → Bool
all_events [] = true
all_events (v ∷ vs) = not (v == 0) && all_events vs

abbrev pub IsBounded : Keyboard → Type 0
IsBounded k = (length k.events ≤ capacity) × (k.dropped ≤ 0xffff)

-- The numbers that the CPU gets from that many polls in a row.
unfoldable pub polls : ℕ → Keyboard → List ℕ
unfolding cpu_read
polls zero k = []
polls (suc n) k = (cpu_read 0 k).0 ∷ polls n (cpu_read 0 k).1

take_all : (xs : List ℕ) (n : ℕ) → length xs ≤ n → take n (xs ++ []) ≡ xs
take_all [] zero h = refl
take_all [] (suc n) h = refl
take_all (x ∷ xs) zero h = absurd (omega arith)
take_all (x ∷ xs) (suc n) h = ap (λ ys. x ∷ ys) (take_all xs n (omega arith))

take_fit : (xs : List ℕ) (n : ℕ) → length xs ≤ n → take n xs ≡ xs
take_fit [] zero h = refl
take_fit [] (suc n) h = refl
take_fit (x ∷ xs) zero h = absurd (omega arith)
take_fit (x ∷ xs) (suc n) h = ap (λ ys. x ∷ ys) (take_fit xs n (omega arith))

take_full : (xs ys : List ℕ) (n : ℕ) → length xs ≡ n → take n (xs ++ ys) ≡ xs
take_full [] ys zero h = take_zero ys
take_full [] ys (suc n) h = absurd (omega arith)
take_full (x ∷ xs) ys zero h = absurd (omega arith)
take_full (x ∷ xs) ys (suc n) h = ap (λ zs. x ∷ zs) (take_full xs ys n (omega arith))

length-snoc : (xs : List ℕ) (v : ℕ) → length (xs ++ (v ∷ [])) ≡ length xs + 1
length-snoc [] v = refl
length-snoc (x ∷ xs) v = let h = length-snoc xs v in omega arith

snoc-++ : (xs : List ℕ) (v : ℕ) (vs : List ℕ) → (xs ++ (v ∷ [])) ++ vs ≡ xs ++ (v ∷ vs)
snoc-++ [] v vs = refl
snoc-++ (x ∷ xs) v vs = ap (λ zs. x ∷ zs) (snoc-++ xs v vs)

module _ (v : ℕ) (k : Keyboard) where
  input_full :
      (v == 0) ≡ false
      → length k.events ≡ capacity
      → k.dropped ≤ 0xffff
      → ((input v k).events ≡ k.events) × ((input v k).dropped ≡ min 0xffff (k.dropped + 1))
  unfolding input
  input_full z h d = ground (arith, z)

  input_room :
      (v == 0) ≡ false
      → length k.events < capacity
      → input v k ≡ record k { events = k.events ++ (v ∷ []) }
  unfolding input
  input_room z h =
      let free : (length k.events == capacity) ≡ false = ground arith in rw (z, free) refl

first_event :
    (v : ℕ) (vs : List ℕ) → all_events (v ∷ vs) ≡ true → ((v == 0) ≡ false) × (all_events vs ≡ true)
first_event v vs h = (ground (arith, h), ground (arith, h))

-- The two cases of an event, with what holds of the rest of the history.
module _ (v : ℕ) (vs : List ℕ) (k : Keyboard) where
  abbrev Left : Keyboard → List ℕ → Type 0
  Left j rest =
      ((inputs vs j).events ≡ take capacity (k.events ++ rest))
      × ((inputs vs j).dropped
          ≡ min 0xffff (k.dropped + (length k.events + length rest - capacity)))

  when_full :
      length k.events ≡ capacity
      → k.dropped ≤ 0xffff
      → ((input v k).events ≡ k.events) × ((input v k).dropped ≡ min 0xffff (k.dropped + 1))
      → ((inputs vs (input v k)).events ≡ take capacity ((input v k).events ++ vs))
        × ((inputs vs (input v k)).dropped
            ≡ min 0xffff ((input v k).dropped + (length (input v k).events + length vs - capacity)))
      → Left (input v k) (v ∷ vs)
  when_full full d (same, one) (kept, count) =
      let size = ap length same in
      (
        kept
            ∙ ap (λ xs. take capacity (xs ++ vs)) same
            ∙ take_full k.events vs capacity full
            ∙ sym (take_full k.events (v ∷ vs) capacity full),
        count ∙ omega arith,
      )

  abbrev longer : Keyboard
  longer = record k { events = k.events ++ (v ∷ []) }

  when_free :
      length k.events < capacity
      → ((inputs vs longer).events ≡ take capacity (longer.events ++ vs))
        × ((inputs vs longer).dropped
            ≡ min 0xffff (longer.dropped + (length longer.events + length vs - capacity)))
      → Left longer (v ∷ vs)
  when_free free (kept, count) =
      let size = length-snoc k.events v in
      (kept ∙ ap (take capacity) (snoc-++ k.events v vs), count ∙ omega arith)

-- After any history of non-zero events the queue holds what was in it and then the oldest of the
-- history, up to 64 in all, and the counter has grown by the number of the others, up to 0xffff.
pub inputs_lem :
    (vs : List ℕ) (k : Keyboard)
    → length k.events ≤ capacity
    → k.dropped ≤ 0xffff
    → all_events vs ≡ true
    → ((inputs vs k).events ≡ take capacity (k.events ++ vs))
      × ((inputs vs k).dropped ≡ min 0xffff (k.dropped + (length k.events + length vs - capacity)))
unfolding inputs
inputs_lem [] k b d h = (sym (take_all k.events capacity b), ground arith)
inputs_lem (v ∷ vs) k b d h =
    let (z, rest) = first_event v vs h in
    elim (Bool-cases (length k.events == capacity)) [
      | inl full ↦
          let size : length k.events ≡ capacity = (==_iff (length k.events) capacity).0 full in
          let (same, one) = input_full v k z size d in
          let short : length (input v k).events ≤ capacity = rw same b in
          let low : (input v k).dropped ≤ 0xffff = omega arith in
          when_full v vs k size d (same, one) (inputs_lem vs (input v k) short low rest)
      | inr free ↦
          let room : length k.events < capacity = ground arith in
          let fits : length (longer v vs k).events ≤ capacity =
            omega (arith, length-snoc k.events v) in
          subst (λ j. Left v vs k j (v ∷ vs)) (sym (input_room v k z room))
            (when_free v vs k room (inputs_lem vs (longer v vs k) fits d rest))
    ]

abbrev pub idle : Keyboard
idle = record { events = []; dropped = 0 }

polls_lem : (xs : List ℕ) (d : ℕ) → polls (length xs) (record { events = xs; dropped = d }) ≡ xs
unfolding polls cpu_read
polls_lem [] d = refl
polls_lem (x ∷ xs) d = ap (λ ys. x ∷ ys) (polls_lem xs d)

-- Up to 64 non-zero events that reach an empty keyboard are polled in the order in which they came.
pub polls-inputs :
    (vs : List ℕ)
    → length vs ≤ capacity
    → all_events vs ≡ true
    → polls (length vs) (inputs vs idle) ≡ vs
polls-inputs vs b h =
    let (kept, count) = inputs_lem vs idle (omega arith) (omega arith) h in
    let j = inputs vs idle in
    let all = kept ∙ take_fit vs capacity b in
    ap (λ n. polls n j) (ap length (sym all)) ∙ polls_lem j.events j.dropped ∙ all
