-- ===== src/Afs/Content/Linked.antt =====
-- The chain of a file that was just written is the list of the clusters written.
use anc.Afs.Content.{next_of, capacity_of, max_cluster_count}
use anc.Afs.Content.Cluster.{IsCluster}
use anc.Afs.Chain.{link_address, walk, chain, see, chain_fuel, Walk}
use anc.Afs.Layout.{Buffer, block, header_size, capacity_of, max_cluster_count}
use anc.Afs.Content.Written.{Apart, AreClusters, Written}
use anc.Base.{
  ℕ, zero, suc, ◌+◌, ◌-◌, ◌<◌, ◌≡◌, refl, ap, ◌∙◌, Bool, true, false, List, [], ◌∷◌, arith, ltb,
  ◌==◌, length, drop,
}

abbrev NotSeen : (ℕ → Bool) → List ℕ → Type 0
NotSeen seen [] = Unit
NotSeen seen (x ∷ xs) = (seen x ≡ false) × NotSeen seen xs

NotSeen-see :
    (seen : ℕ → Bool) (id : ℕ) (xs : List ℕ)
    → Apart id xs
    → NotSeen seen xs
    → NotSeen (see seen id) xs
NotSeen-see seen id [] a n = tt
NotSeen-see seen id (x ∷ xs) (ne, a) (new, n) =
    (ground (arith, ne, new), NotSeen-see seen id xs a n)

not_seen : (xs : List ℕ) → NotSeen (λ _. false) xs
not_seen [] = tt
not_seen (x ∷ xs) = (refl, not_seen xs)

link_place : (head : Bool) (id : ℕ) → link_address head id ≡ block id + header_size head - 3
link_place true id = omega arith
link_place false id = omega arith

walk_step :
    (fuel : ℕ) (head : Bool) (seen : ℕ → Bool) (id : ℕ) (m : Buffer) (next : ℕ) (rest : List ℕ)
    → IsCluster id
    → seen id ≡ false
    → m (block id + header_size head - 3) ≡ next
    → walk fuel false (see seen id) next m ≡ Walk.ids rest
    → walk (suc fuel) head seen id m ≡ Walk.ids (id ∷ rest)
unfolding walk
walk_step fuel head seen id m next rest c new link later =
    let place = ap m (link_place head id) ∙ link in
    let some_id : (id == 0) ≡ false = ground arith in
    let in_range : ltb max_cluster_count id ≡ false = ground arith in
    rw (some_id, in_range, new, place, later) refl

walk-Written :
    (fuel : ℕ) (head : Bool) (seen : ℕ → Bool) (p : ℕ) (ids content : List ℕ) (m : Buffer)
    → length ids < fuel
    → AreClusters ids
    → NotSeen seen ids
    → Written head p ids content m
    → walk fuel head seen (next_of ids) m ≡ Walk.ids ids
walk-Written zero head seen p ids content m lt c n w = absurd (omega arith)
walk-Written (suc fuel) head seen p [] content m lt c n w = unfold walk in refl
walk-Written (suc fuel) head seen p (id ∷ rest) content m lt (c, apart, cs) (new, n)
      (k, o, link, sized, with_buffer, more) =
    walk_step fuel head seen id m (next_of rest) rest c new link (
      walk-Written fuel false (see seen id) p rest (drop (capacity_of head) content) m (omega arith)
        cs (NotSeen-see seen id rest apart n) more)

pub chain-Written :
    (p : ℕ) (ids content : List ℕ) (m : Buffer)
    → length ids < chain_fuel
    → AreClusters ids
    → Written true p ids content m
    → chain (next_of ids) m ≡ Walk.ids ids
unfolding chain
chain-Written p ids content m lt c w =
    walk-Written chain_fuel true (λ _. false) p ids content m lt c (not_seen ids) w
