-- ===== src/Afs/Content/Written.antt =====
-- What the writing loop of `set_content` leaves: each cluster linked to the next, with its part of the
-- content, and nothing else changed.
use anc.Afs.Content.Buffers.{slice_same}
use anc.Cpu.Control.Inspect.{slice}
use anc.Afs.Content.{
  next_of, block, capacity_of, file_ext_size, kind, get_word, kind_of, write_clusters, header_size,
  write_cluster, slice, read_clusters,
}
use anc.Afs.Content.Cluster.{
  IsCluster, Spares, cluster_outside, header_bounds, cluster_kind, cluster_owner, cluster_link,
  cluster_size_word, cluster_data,
}
use anc.Afs.Layout.{
  Buffer, file_name_size, owner_address, block, capacity_of, file_ext_size, kind, cluster_size,
  get_word, header_size, owner,
}
use anc.Base.{
  ℕ, zero, suc, ◌+◌, ◌-◌, ◌≤◌, ◌<◌, ◌≡◌, refl, ap, ◌∙◌, ◌≢◌, ◌⊎◌, inl, inr, Bool, false, List, [],
  ◌∷◌, ◌++◌, arith, length, take, drop, u8,
}

abbrev pub Apart : ℕ → List ℕ → Type 0
Apart id [] = Unit
Apart id (x ∷ xs) = (id ≢ x) × Apart id xs

-- Distinct numbers of clusters.
abbrev pub AreClusters : List ℕ → Type 0
AreClusters [] = Unit
AreClusters (id ∷ rest) = IsCluster id × Apart id rest × AreClusters rest

-- An address of the cluster or of its entry in the table.
abbrev pub In : ℕ → ℕ → Type 0
In id y =
    ((owner_address id ≤ y) × (y < owner_address id + 2))
    ⊎ ((block id ≤ y) × (y < block id + cluster_size))

abbrev pub SameCluster : ℕ → Buffer → Buffer → Type 0
SameCluster id m m' = (y : ℕ) → In id y → m' y ≡ m y

order_cases : (a b : ℕ) → a ≢ b → (a < b) ⊎ (b < a)
order_cases a b h = ground arith

pub Spares-other : (id j y : ℕ) → IsCluster id → IsCluster j → id ≢ j → In id y → Spares j y
Spares-other id j y c d ne (inl (lo, hi)) = elim (order_cases id j ne) [
  | inl lt ↦ (inl (omega arith), inl (omega arith))
  | inr gt ↦ (inr (omega arith), inl (omega arith))
]
Spares-other id j y c d ne (inr (lo, hi)) = elim (order_cases id j ne) [
  | inl lt ↦ (inr (omega arith), inl (omega arith))
  | inr gt ↦ (inr (omega arith), inr (omega arith))
]

pub length-take-le : (n : ℕ) (xs : List ℕ) → length (take n xs) ≤ n
length-take-le zero xs = omega arith
length-take-le (suc n) [] = omega arith
length-take-le (suc n) (x ∷ xs) = let h = length-take-le n xs in omega arith

abbrev pub SparesAll : List ℕ → ℕ → Type 0
SparesAll [] y = Unit
SparesAll (id ∷ rest) y = Spares id y × SparesAll rest y

pub spares_all :
    (id : ℕ) (rest : List ℕ) (y : ℕ)
    → IsCluster id
    → Apart id rest
    → AreClusters rest
    → In id y
    → SparesAll rest y
spares_all id [] y c a cs h = tt
spares_all id (x ∷ xs) y c (ne, a) (d, b, ds) h =
    (Spares-other id x y c d ne h, spares_all id xs y c a ds h)

module _ (p : ℕ) (base ext : List ℕ) (base_fits : length base ≤ file_name_size)
    (ext_fits : length ext ≤ file_ext_size) where
  pub write_clusters_outside :
      (head : Bool) (ids content : List ℕ) (m : Buffer) (y : ℕ)
      → AreClusters ids
      → SparesAll ids y
      → write_clusters head p base ext ids content m y ≡ m y
  unfolding write_clusters
  write_clusters_outside head [] content m y c s = refl
  write_clusters_outside head (id ∷ rest) content m y (c, apart, cs) (s, ss) =
      let chunk = take (capacity_of head) content in
      write_clusters_outside false rest (drop (capacity_of head) content)
        (write_cluster head p base ext id (next_of rest) chunk m) y cs ss
      ∙ cluster_outside head p base ext id (next_of rest) chunk m base_fits ext_fits
          (length-take-le (capacity_of head) content) c y s

  -- The clusters behind leave this one alone.
  pub write_clusters-SameCluster :
      (head : Bool) (id : ℕ) (rest content : List ℕ) (m : Buffer)
      → IsCluster id
      → Apart id rest
      → AreClusters rest
      → SameCluster id m (write_clusters head p base ext rest content m)
  write_clusters-SameCluster head id rest content m c a cs y h =
      write_clusters_outside head rest content m y cs (spares_all id rest y c a cs h)

-- The state of the clusters of a content.
abbrev pub Written : Bool → ℕ → List ℕ → List ℕ → Buffer → Type 0
Written head p [] content m = Unit
Written head p (id ∷ rest) content m =
    (kind id m ≡ kind_of head)
    × (owner id m ≡ u8 p)
    × (m (block id + header_size head - 3) ≡ next_of rest)
    × (get_word (block id + header_size head - 2) m ≡ length (take (capacity_of head) content))
    × (slice (length (take (capacity_of head) content)) (block id + header_size head) m
        ≡ take (capacity_of head) content)
    × Written false p rest (drop (capacity_of head) content) m

next_u8 : (rest : List ℕ) → AreClusters rest → u8 (next_of rest) ≡ next_of rest
next_u8 [] c = omega arith
next_u8 (x ∷ xs) (c, a, r) = omega arith

cluster_kept :
    (head : Bool) (id : ℕ) (content : List ℕ) (m m' : Buffer)
    → IsCluster id
    → SameCluster id m m'
    → length content ≤ capacity_of head
    → (get_word (block id + header_size head - 2) m' ≡ get_word (block id + header_size head - 2) m)
      × (slice (length content) (block id + header_size head) m'
          ≡ slice (length content) (block id + header_size head) m)
cluster_kept head id content m m' c keep fits =
    let b = header_bounds head in
    let hi = keep (block id + header_size head - 2) (inr (omega arith, omega arith)) in
    let lo = keep (block id + header_size head - 2 + 1) (inr (omega arith, omega arith)) in
    (
      rw (hi, lo) refl,
      slice_same (length content) (block id + header_size head) m m'
          (λ x at below. keep x (inr (omega arith, omega arith))),
    )

-- The writing loop leaves the clusters linked in order, each with its part of the content.
pub write_clusters-Written :
    (p : ℕ) (base ext : List ℕ) (head : Bool) (ids content : List ℕ) (m : Buffer)
    → length base ≤ file_name_size
    → length ext ≤ file_ext_size
    → AreClusters ids
    → Written head p ids content (write_clusters head p base ext ids content m)
unfolding write_clusters
write_clusters-Written p base ext head [] content m b e c = tt
write_clusters-Written p base ext head (id ∷ rest) content m b e (c, apart, cs) =
    let cap = capacity_of head in
    let chunk = take cap content in
    let fits = length-take-le cap content in
    let next = next_of rest in
    let m1 = write_cluster head p base ext id next chunk m in
    let m2 = write_clusters false p base ext rest (drop cap content) m1 in
    let bounds = header_bounds head in
    let keep =
      write_clusters-SameCluster p base ext b e false id rest (drop cap content) m1 c apart cs in
    let (sized, with_buffer) = cluster_kept head id chunk m1 m2 c keep fits in
    (
      keep (owner_address id + 1) (inl (omega arith, omega arith))
          ∙ cluster_kind head p base ext id next chunk m b e fits c,
      keep (owner_address id) (inl (omega arith, omega arith))
          ∙ cluster_owner head p base ext id next chunk m b e fits c,
      keep (block id + header_size head - 3) (inr (omega arith, omega arith))
          ∙ cluster_link head p base ext id next chunk m b e fits c
          ∙ next_u8 rest cs,
      sized ∙ cluster_size_word head p base ext id next chunk m b e fits c,
      with_buffer ∙ cluster_data head p base ext id next chunk m b e fits c,
      write_clusters-Written p base ext false rest (drop cap content) m1 b e cs,
    )

-- How much content the clusters of a list hold.
abbrev pub room : Bool → List ℕ → ℕ
room head [] = 0
room head (id ∷ rest) = capacity_of head + room false rest

take-drop : (n : ℕ) (xs : List ℕ) → take n xs ++ drop n xs ≡ xs
take-drop zero xs = refl
take-drop (suc n) [] = refl
take-drop (suc n) (x ∷ xs) = ap (λ ys. x ∷ ys) (take-drop n xs)

length-drop : (n : ℕ) (xs : List ℕ) → length (drop n xs) ≡ length xs - n
length-drop zero xs = omega arith
length-drop (suc n) [] = omega arith
length-drop (suc n) (x ∷ xs) = let h = length-drop n xs in omega arith

-- What the clusters hold is read back whole if there is room for it.
pub read_clusters-Written :
    (head : Bool) (p : ℕ) (ids content : List ℕ) (m : Buffer)
    → AreClusters ids
    → length content ≤ room head ids
    → Written head p ids content m
    → read_clusters head ids m ≡ content
unfolding read_clusters
read_clusters-Written head p [] [] m c fits w = refl
read_clusters-Written head p [] (x ∷ xs) m c fits w = absurd (omega arith)
read_clusters-Written head p (id ∷ rest) content m (c, apart, cs) fits
      (k, o, l, sized, with_buffer, more) =
    let short = length-drop (capacity_of head) content in
    let later =
      read_clusters-Written false p rest (drop (capacity_of head) content) m cs (omega arith)
        more in
    let here = ap (λ n. slice n (block id + header_size head) m) sized ∙ with_buffer in
    rw (here, later) (take-drop (capacity_of head) content)
