-- ===== src/Afs/Content/Freed.antt =====
-- What freeing the clusters of a file leaves: zeros in them, and the rest as it was.
use mathlib.Core.Path.{subst}
use anc.Afs.Content.{holds, kind, max_cluster_count}
use anc.Afs.Content.Written.{SparesAll, SameCluster, Spares-other}
use anc.Afs.Layout.{Buffer, metadata, clear, kind, owner_address, max_cluster_count}
use anc.Afs.Edit.{free_cluster, free_clusters}
use anc.Afs.Chain.{Walk, walk, before, chain, chain_fuel, see, link_address}
use anc.Afs.Content.Cluster.{IsCluster, Spares}
use anc.Base.{
  ℕ, zero, suc, ◌+◌, ◌≤◌, ◌≡◌, refl, ◌∙◌, ◌≢◌, inl, inr, Bool, true, false, ◌||◌, List, [], ◌∷◌,
  arith, ltb, ◌==◌, ==_iff, Bool-cases, if_cases,
}

abbrev pub AllClusters : List ℕ → Type 0
AllClusters [] = Unit
AllClusters (x ∷ xs) = IsCluster x × AllClusters xs

-- Freeing writes zeros only.
free_cluster_zero : (id : ℕ) (m : Buffer) (y : ℕ) → m y ≡ 0 → free_cluster id m y ≡ 0
unfolding free_cluster metadata clear
free_cluster_zero id m y z = ground arith

pub free_clusters_zero : (ids : List ℕ) (m : Buffer) (y : ℕ) → m y ≡ 0 → free_clusters ids m y ≡ 0
unfolding free_clusters
free_clusters_zero [] m y z = z
free_clusters_zero (id ∷ rest) m y z =
    free_clusters_zero rest (free_cluster id m) y (free_cluster_zero id m y z)

kind-free_cluster : (id : ℕ) (m : Buffer) → IsCluster id → kind id (free_cluster id m) ≡ 0
unfolding free_cluster metadata clear
kind-free_cluster id m c = ground arith

pub kind-free_clusters :
    (b : ℕ) (ids : List ℕ) (m : Buffer)
    → holds b ids ≡ true
    → AllClusters ids
    → kind b (free_clusters ids m) ≡ 0
unfolding free_clusters
kind-free_clusters b [] m h c = cc
kind-free_clusters b (x ∷ rest) m h (c, cs) = elim (Bool-cases (b == x)) [
  | inl e ↦
      let same : b ≡ x = (==_iff b x).0 e in
      let freed : kind b (free_cluster x m) ≡ 0 = rw same (kind-free_cluster x m c) in
      free_clusters_zero rest (free_cluster x m) (owner_address b + 1) freed
  | inr e ↦
      let behind : holds b rest ≡ true = ground (arith, e, h) in
      kind-free_clusters b rest (free_cluster x m) behind cs
]

free_cluster_outside : (id : ℕ) (m : Buffer) (y : ℕ) → Spares id y → free_cluster id m y ≡ m y
unfolding free_cluster metadata clear
free_cluster_outside id m y s = ground arith

-- A cluster that is not freed is left alone.
pub free_clusters-SameCluster :
    (b : ℕ) (ids : List ℕ) (m : Buffer)
    → IsCluster b
    → AllClusters ids
    → holds b ids ≡ false
    → SameCluster b m (free_clusters ids m)
unfolding free_clusters
free_clusters-SameCluster b [] m c cs n y h = refl
free_clusters-SameCluster b (x ∷ rest) m c (d, ds) n y h =
    let ne : b ≢ x = ground (arith, n) in
    let later : holds b rest ≡ false = ground (arith, n) in
    free_clusters-SameCluster b rest (free_cluster x m) c ds later y h
    ∙ free_cluster_outside x m y (Spares-other b x y c d ne h)

-- An address outside all clusters and their table.
pub free_clusters_outside :
    (ids : List ℕ) (m : Buffer) (y : ℕ) → SparesAll ids y → free_clusters ids m y ≡ m y
unfolding free_clusters
free_clusters_outside [] m y s = refl
free_clusters_outside (id ∷ rest) m y (s, ss) =
    free_clusters_outside rest (free_cluster id m) y ss ∙ free_cluster_outside id m y s

pub ids_inj : (xs ys : List ℕ) → Walk.ids xs ≡ Walk.ids ys → xs ≡ ys
ids_inj xs ys h = cc

before_ids :
    (id : ℕ) (w : Walk) (xs : List ℕ)
    → before id w ≡ Walk.ids xs
    → (ys : List ℕ) × (w ≡ Walk.ids ys) × (id ∷ ys ≡ xs)
before_ids id (Walk.ids ys) xs h = (ys, refl, ids_inj (id ∷ ys) xs h)
before_ids id Walk.invalid xs h = cc
before_ids id Walk.no_fuel xs h = cc

-- The first cluster of a chain.
abbrev StartsAt : ℕ → List ℕ → Type 0
StartsAt id xs = AllClusters xs × (1 ≤ id → holds id xs ≡ true)

self_holds : (id : ℕ) (xs : List ℕ) → holds id (id ∷ xs) ≡ true
self_holds id xs = ground arith

-- What a walk returns are numbers of clusters, the first one where it started.
walk-StartsAt :
    (fuel : ℕ) (head : Bool) (seen : ℕ → Bool) (id : ℕ) (m : Buffer) (xs : List ℕ)
    → walk fuel head seen id m ≡ Walk.ids xs
    → StartsAt id xs
unfolding walk
walk-StartsAt zero head seen id m xs = λ h. cc
walk-StartsAt (suc fuel) head seen id m xs =
    if_cases (λ w. w ≡ Walk.ids xs → StartsAt id xs) (id == 0)
      (λ z h.
        let nothing : List ℕ = [] in
        let over : nothing ≡ xs = ids_inj [] xs h in
        subst (StartsAt id) over (tt, λ pos. absurd (ground arith)))
      λ z.
        if_cases (λ w. w ≡ Walk.ids xs → StartsAt id xs) (ltb max_cluster_count id || seen id)
          (λ _ h. cc)
          λ g h.
            let (ys, e, same) =
              before_ids id (walk fuel false (see seen id) (m (link_address head id)) m) xs h in
            let c : IsCluster id = (ground arith, ground arith) in
            let later = walk-StartsAt fuel false (see seen id) (m (link_address head id)) m ys e in
            subst (StartsAt id) same ((c, later.0), λ _. self_holds id ys)

pub chain-AllClusters :
    (id : ℕ) (m : Buffer) (xs : List ℕ)
    → chain id m ≡ Walk.ids xs
    → AllClusters xs × (1 ≤ id → holds id xs ≡ true)
unfolding chain
chain-AllClusters id m xs h = walk-StartsAt chain_fuel true (λ _. false) id m xs h
