-- ===== src/Afs/Chain/Ends.antt =====
-- Every chain ends, in a corrupt image too: each round sees a cluster that was not seen before.
use anc.Afs.Layout.{Buffer, max_cluster_count}
use anc.Base.{
  ℕ, zero, suc, ◌+◌, ◌≤◌, ◌<◌, ◌≡◌, refl, ap, ◌∙◌, ◌≢◌, inl, inr, Bool, true, false, ◌||◌, arith,
  ltb, ◌==◌, if◌then◌else◌, ==_iff, Bool-cases, if_cases,
}
use anc.Afs.Chain.{Walk, walk, chain, see, before, chain_fuel, link_address}

-- How many of the numbers 1..n are not seen.
unfoldable pub unseen : ℕ → (ℕ → Bool) → ℕ
unseen zero seen = 0
unseen (suc n) seen = (if seen (suc n) then 0 else 1) + unseen n seen

pub unseen-le : (n : ℕ) (seen : ℕ → Bool) → unseen n seen ≤ n
unfolding unseen
unseen-le zero seen = omega arith
unseen-le (suc n) seen = ground (arith, unseen-le n seen)

unseen-see_beyond : (n id : ℕ) (seen : ℕ → Bool) → n < id → unseen n (see seen id) ≡ unseen n seen
unfolding unseen
unseen-see_beyond zero id seen h = refl
unseen-see_beyond (suc n) id seen h = ground (arith, unseen-see_beyond n id seen)

pub unseen-see :
    (n id : ℕ) (seen : ℕ → Bool)
    → 1 ≤ id
    → id ≤ n
    → seen id ≡ false
    → unseen n (see seen id) + 1 ≡ unseen n seen
unfolding unseen
unseen-see zero id seen lo hi new = absurd (omega arith)
unseen-see (suc n) id seen lo hi new = elim (Bool-cases (suc n == id)) [
  | inl e ↦
      let same : suc n ≡ id = (==_iff (suc n) id).0 e in
      let top : seen (suc n) ≡ false = ap seen same ∙ new in
      ground (arith, unseen-see_beyond n id seen)
  | inr e ↦ ground (arith, unseen-see n id seen)
]

pub before_ends : (id : ℕ) (w : Walk) → w ≢ Walk.no_fuel → before id w ≢ Walk.no_fuel
before_ends id (Walk.ids xs) h = λ e. cc
before_ends id Walk.invalid h = λ e. cc
before_ends id Walk.no_fuel h = λ e. h refl

walk_ends :
    (fuel : ℕ) (head : Bool) (seen : ℕ → Bool) (id : ℕ) (m : Buffer)
    → unseen max_cluster_count seen + 1 < fuel
    → walk fuel head seen id m ≢ Walk.no_fuel
unfolding walk
walk_ends zero head seen id m h = absurd (omega arith)
walk_ends (suc fuel) head seen id m h =
    if_cases (λ w. w ≢ Walk.no_fuel) (id == 0) (λ _ e. cc)
      λ z.
        if_cases (λ w. w ≢ Walk.no_fuel) (ltb max_cluster_count id || seen id) (λ _ e. cc)
          λ g.
            let lo : 1 ≤ id = ground arith in
            let hi : id ≤ max_cluster_count = ground arith in
            let new : seen id ≡ false = ground arith in
            let less = unseen-see max_cluster_count id seen lo hi new in
            before_ends id (walk fuel false (see seen id) (m (link_address head id)) m)
              (walk_ends fuel false (see seen id) (m (link_address head id)) m (omega arith))

-- Walking a chain of clusters ends within the fuel from any cluster of any image: it returns the chain
-- or throws.
pub chain_ends : (id : ℕ) (m : Buffer) → chain id m ≢ Walk.no_fuel
unfolding chain
chain_ends id m =
    let bound = unseen-le max_cluster_count (λ _. false) in
    walk_ends chain_fuel true (λ _. false) id m (omega arith)
