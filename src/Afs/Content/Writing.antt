-- ===== src/Afs/Content/Writing.antt =====
-- What a successful `set_content` of cardreader/include/afs.hh has done: `Rewritten`.
use anc.Afs.Chain.{chain, Walk}
use anc.Afs.Edit.{free_clusters, success, Code, no_more_space, invalid_name}
use anc.Afs.Search.Found.{first_found}
use anc.Afs.Content.Freed.{chain-AllClusters, AllClusters}
use anc.Afs.Content.Cluster.{IsCluster}
use anc.Afs.Search.{is_file, base_name, extension, file}
use anc.Afs.Content.{
  chosen, base_name, extension, free_clusters, write_clusters, usable_for, file, rewrite_file,
  success, max_cluster_count, need, Code, no_more_space, set_chain, set_in, set_found, pick,
  invalid_name, holds,
}
use anc.Afs.Layout.{Buffer, max_cluster_count}
use anc.Base.{
  ℕ, ◌-◌, ◌≡◌, refl, sym, ap, ◌∙◌, inl, inr, Bool, true, false, not, Option, none, some, List, ◌∷◌,
  arith, ◌==◌, if◌then◌else◌, ==_iff, Option-cases, length,
}

choice :
    (b : Bool) (m w m' : Buffer)
    → ◌≡◌ {A = Code × Buffer} (if not b then (no_more_space, m) else (success, w)) (success, m')
    → (b ≡ true) × (m' ≡ w)
choice true m w m' h = (refl, ap (λ (r : Code × Buffer). r.1) (sym h))
choice false m w m' h = cc

file-IsCluster : (name : List ℕ) (p id : ℕ) (m : Buffer) → file name p m ≡ some id → IsCluster id
unfolding file
file-IsCluster name p id m h =
    let (found, lo, hi, before_it) = first_found 1 max_cluster_count (is_file name p m) id h in
    (lo, omega arith)

-- What a successful `rewrite_file` has written.
rewritten :
    (p id : ℕ) (old content : List ℕ) (m m' : Buffer)
    → rewrite_file p id old content m ≡ (success, m')
    → (length (chosen id old content m) ≡ need (length content))
      × (m'
          ≡ write_clusters true p
              (base_name id m)
              (extension id m)
              (chosen id old content m)
              content
              (free_clusters old m))
unfolding rewrite_file
rewritten p id old content m m' h =
    let bs = chosen id old content m in
    let (e, same) =
      choice (length bs == need (length content)) m
        (write_clusters true p (base_name id m) (extension id m) bs content (free_clusters old m))
        m' h in
    ((==_iff (length bs) (need (length content))).0 e, same)

some_pair : (x y : Code × Buffer) → some x ≡ some y → x ≡ y
some_pair x y h = cc

-- The first cluster is kept.
chosen_first :
    (id : ℕ) (old content : List ℕ) (m : Buffer)
    → (rest : List ℕ) × (chosen id old content m ≡ id ∷ rest)
unfolding chosen
chosen_first id old content m =
    (pick 1 max_cluster_count (need (length content) - 1) (usable_for id old m), refl)

pub set_chain_ids :
    (p id : ℕ) (old content : List ℕ) (m : Buffer)
    → set_chain p id (Walk.ids old) content m ≡ some (rewrite_file p id old content m)
unfolding set_chain
set_chain_ids p id old content m = refl

set_chain-rewritten :
    (p id : ℕ) (old content : List ℕ) (m m' : Buffer)
    → set_chain p id (Walk.ids old) content m ≡ some (success, m')
    → rewrite_file p id old content m ≡ (success, m')
set_chain-rewritten p id old content m m' h =
    some_pair (rewrite_file p id old content m) (success, m')
      (sym (set_chain_ids p id old content m) ∙ h)

-- The file, its clusters before and after, and the buffer that writing to it leaves.
pub record Rewritten (p : ℕ) (name content : List ℕ) (m m' : Buffer) : Type 0 where
  pub id : ℕ
  pub old : List ℕ
  pub rest : List ℕ
  pub found : file name p m ≡ some id
  pub linked : chain id m ≡ Walk.ids old
  pub cluster : IsCluster id
  pub olds : AllClusters old
  pub here : holds id old ≡ true
  pub picked : chosen id old content m ≡ id ∷ rest
  pub enough : length (id ∷ rest) ≡ need (length content)
  pub written :
      m'
      ≡ write_clusters true p
          (base_name id m)
          (extension id m)
          (id ∷ rest)
          content
          (free_clusters old m)

rewrite_file-Rewritten :
    (p id : ℕ) (name old content : List ℕ) (m m' : Buffer)
    → file name p m ≡ some id
    → chain id m ≡ Walk.ids old
    → rewrite_file p id old content m ≡ (success, m')
    → Rewritten p name content m m'
rewrite_file-Rewritten p id name old content m m' f link h =
    let c = file-IsCluster name p id m f in
    let (olds, start) = chain-AllClusters id m old link in
    let (enough, same) = rewritten p id old content m m' h in
    let (rest, split) = chosen_first id old content m in
    let after = λ (bs : List ℕ).
      write_clusters true p (base_name id m) (extension id m) bs content (free_clusters old m) in
    record {
      id = id;
      old = old;
      rest = rest;
      found = f;
      linked = link;
      cluster = c;
      olds = olds;
      here = start c.0;
      picked = split;
      enough = ap length (sym split) ∙ enough;
      written = same ∙ ap after split;
    }

set_chain-Rewritten :
    (p id : ℕ) (name content : List ℕ) (w : Walk) (m m' : Buffer)
    → file name p m ≡ some id
    → chain id m ≡ w
    → set_chain p id w content m ≡ some (success, m')
    → Rewritten p name content m m'
set_chain-Rewritten p id name content (Walk.ids old) m m' f link h =
    rewrite_file-Rewritten p id name old content m m' f link
      (set_chain-rewritten p id old content m m' h)
set_chain-Rewritten p id name content Walk.invalid m m' f link h = unfold set_chain in cc
set_chain-Rewritten p id name content Walk.no_fuel m m' f link h = unfold set_chain in cc

pub set_in_found :
    (p : ℕ) (name content : List ℕ) (m : Buffer) (r : Option ℕ)
    → file name p m ≡ r
    → set_in (some p) name content m ≡ set_found p r content m
unfolding set_in
set_in_found p name content m r h = rw h refl

-- The write was to a file that is there, and to all the clusters it takes.
pub set_in-Rewritten :
    (p : ℕ) (name content : List ℕ) (m m' : Buffer)
    → set_in (some p) name content m ≡ some (success, m')
    → Rewritten p name content m m'
set_in-Rewritten p name content m m' h = elim (Option-cases (file name p m)) [
  | inl none_found ↦
      let same = set_in_found p name content m none none_found in
      let refused : set_found p none content m ≡ some (invalid_name, m) =
        unfold set_found in refl in
      let both = some_pair (invalid_name, m) (success, m') (sym refused ∙ sym same ∙ h) in cc
  | inr (id, found) ↦
      let same = set_in_found p name content m (some id) found in
      let opened : set_found p (some id) content m ≡ set_chain p id (chain id m) content m =
        unfold set_found in refl in
      set_chain-Rewritten p id name content (chain id m) m m' found refl (sym opened ∙ sym same ∙ h)
]
