-- ===== src/Afs/Content/Chosen.antt =====
-- The clusters that `set_content` chooses: distinct, the file's own first, free or its own.
use anc.Afs.Chain.{chain_fuel}
use anc.Afs.Content.Cluster.{IsCluster}
use anc.Afs.Content.{chosen, need, pick, usable_for}
use anc.Afs.Layout.{Buffer, max_cluster_count}
use anc.Afs.Content.Written.{Apart, room, AreClusters}
use anc.Base.{
  ℕ, zero, suc, ◌+◌, ◌-◌, ◌*◌, ◌≤◌, ◌<◌, ◌≡◌, ap, ◌≢◌, Bool, true, false, List, [], ◌∷◌, arith,
  if_cases, length,
}

abbrev pub Picked : ℕ → ℕ → (ℕ → Bool) → List ℕ → Type 0
Picked from to usable [] = Unit
Picked from to usable (x ∷ xs) =
    (from ≤ x) × (x < to) × (usable x ≡ true) × Picked (x + 1) to usable xs

Picked-from :
    (from later to : ℕ) (usable : ℕ → Bool) (xs : List ℕ)
    → from ≤ later
    → Picked later to usable xs
    → Picked from to usable xs
Picked-from from later to usable [] h p = tt
Picked-from from later to usable (x ∷ xs) h (lo, hi, u, rest) = (omega arith, hi, u, rest)

Picked-to :
    (from to beyond : ℕ) (usable : ℕ → Bool) (xs : List ℕ)
    → to ≤ beyond
    → Picked from to usable xs
    → Picked from beyond usable xs
Picked-to from to beyond usable [] h p = tt
Picked-to from to beyond usable (x ∷ xs) h (lo, hi, u, rest) =
    (lo, omega arith, u, Picked-to (x + 1) to beyond usable xs h rest)

pub pick-Picked :
    (from count wanted : ℕ) (usable : ℕ → Bool)
    → Picked from (from + count) usable (pick from count wanted usable)
unfolding pick
pick-Picked from zero wanted usable = tt
pick-Picked from (suc count) zero usable = tt
pick-Picked from (suc count) (suc wanted) usable =
    if_cases (Picked from (from + suc count) usable) (usable from)
      (λ u. (
        omega arith,
        omega arith,
        u,
        Picked-to (from + 1) (from + 1 + count) (from + suc count) usable
            (pick (from + 1) count wanted usable) (omega arith)
            (pick-Picked (from + 1) count wanted usable),
      ))
      (λ _.
        Picked-from from (from + 1) (from + suc count) usable
          (pick (from + 1) count (suc wanted) usable) (omega arith)
          (Picked-to (from + 1) (from + 1 + count) (from + suc count) usable
            (pick (from + 1) count (suc wanted) usable) (omega arith)
            (pick-Picked (from + 1) count (suc wanted) usable)))

length-pick :
    (from count wanted : ℕ) (usable : ℕ → Bool) → length (pick from count wanted usable) ≤ count
unfolding pick
length-pick from zero wanted usable = omega arith
length-pick from (suc count) zero usable = omega arith
length-pick from (suc count) (suc wanted) usable = ground (
  arith,
  length-pick (from + 1) count wanted usable,
  length-pick (from + 1) count (suc wanted) usable,
)

Picked-Apart :
    (low from to : ℕ) (usable : ℕ → Bool) (xs : List ℕ)
    → low < from
    → Picked from to usable xs
    → Apart low xs
Picked-Apart low from to usable [] h p = tt
Picked-Apart low from to usable (x ∷ xs) h (lo, hi, u, rest) =
    (λ e. omega arith, Picked-Apart low (x + 1) to usable xs (omega arith) rest)

Picked-AreClusters :
    (from : ℕ) (usable : ℕ → Bool) (xs : List ℕ)
    → 1 ≤ from
    → Picked from (1 + max_cluster_count) usable xs
    → AreClusters xs
Picked-AreClusters from usable [] pos p = tt
Picked-AreClusters from usable (x ∷ xs) pos (lo, hi, u, rest) = (
  (omega arith, omega arith),
  Picked-Apart x (x + 1) (1 + max_cluster_count) usable xs (omega arith) rest,
  Picked-AreClusters (x + 1) usable xs (omega arith) rest,
)

Picked-refused :
    (id from to : ℕ) (usable : ℕ → Bool) (xs : List ℕ)
    → usable id ≡ false
    → Picked from to usable xs
    → Apart id xs
Picked-refused id from to usable [] n p = tt
Picked-refused id from to usable (x ∷ xs) n (lo, hi, u, rest) =
    (λ e. let same = ap usable e in cc, Picked-refused id (x + 1) to usable xs n rest)

not_itself : (id : ℕ) (old : List ℕ) (m : Buffer) → usable_for id old m id ≡ false
not_itself id old m = ground arith

pub chosen-AreClusters :
    (id : ℕ) (old content : List ℕ) (m : Buffer)
    → IsCluster id
    → AreClusters (chosen id old content m)
unfolding chosen
chosen-AreClusters id old content m c =
    let picked =
      pick-Picked 1 max_cluster_count (need (length content) - 1) (usable_for id old m) in
    (
      c,
      Picked-refused id 1 (1 + max_cluster_count) (usable_for id old m)
          (pick 1 max_cluster_count (need (length content) - 1) (usable_for id old m))
          (not_itself id old m) picked,
      Picked-AreClusters 1 (usable_for id old m)
          (pick 1 max_cluster_count (need (length content) - 1) (usable_for id old m)) (omega arith)
          picked,
    )

-- A cluster in use that is not the file's is not chosen.
pub chosen-Apart :
    (id : ℕ) (old content : List ℕ) (m : Buffer) (b : ℕ)
    → b ≢ id
    → usable_for id old m b ≡ false
    → Apart b (chosen id old content m)
unfolding chosen
chosen-Apart id old content m b ne refused = (
  ne,
  Picked-refused b 1 (1 + max_cluster_count) (usable_for id old m)
      (pick 1 max_cluster_count (need (length content) - 1) (usable_for id old m)) refused
      (pick-Picked 1 max_cluster_count (need (length content) - 1) (usable_for id old m)),
)

short_enough :
    (id : ℕ) (xs : List ℕ) → length xs ≤ max_cluster_count → length (id ∷ xs) < chain_fuel
short_enough id xs h = omega arith

pub length-chosen :
    (id : ℕ) (old content : List ℕ) (m : Buffer) → length (chosen id old content m) < chain_fuel
unfolding chosen
length-chosen id old content m =
    short_enough id (pick 1 max_cluster_count (need (length content) - 1) (usable_for id old m))
      (length-pick 1 max_cluster_count (need (length content) - 1) (usable_for id old m))

room_rest : (ids : List ℕ) → room false ids ≡ 320 * length ids
room_rest [] = omega arith
room_rest (id ∷ rest) = let h = room_rest rest in omega arith

-- The clusters that are needed have room for the content.
pub length-le-room :
    (id : ℕ) (rest content : List ℕ)
    → length (id ∷ rest) ≡ need (length content)
    → length content ≤ room true (id ∷ rest)
unfolding need
length-le-room id rest content h = let r = room_rest rest in ground arith
