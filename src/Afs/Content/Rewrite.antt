-- ===== src/Afs/Content/Rewrite.antt =====
-- What rewriting a file does to the lookups and to the other clusters, `set_content` of
-- cardreader/include/afs.hh.
use anc.Afs.Content.Linked.{chain-Written}
use anc.Afs.Chain.{chain_fuel, chain, Walk}
use anc.Afs.Content.Buffers.{get_text-le}
use anc.Afs.Edit.{free_clusters, success}
use anc.Afs.Content.Chosen.{chosen-AreClusters, chosen-Apart, length-chosen, length-le-room}
use anc.Afs.Search.Found.{
  SameCluster-filename, filename_of_names, SameCluster-names, first_found, first_intro,
}
use mathlib.Core.Path.{subst}
use anc.Afs.Content.Freed.{
  AllClusters, free_clusters-SameCluster, kind-free_clusters, free_clusters_zero,
  free_clusters_outside,
}
use anc.Afs.Content.Cluster.{IsCluster, cluster_name}
use anc.Afs.Content.Written.{
  Apart, Written, AreClusters, SameCluster, SparesAll, write_clusters-Written,
  write_clusters_outside, spares_all, write_clusters-SameCluster, length-take-le,
  read_clusters-Written,
}
use anc.Afs.Search.{is_file, base_name, extension, filename, file}
use anc.Afs.Content.{
  holds, kind, cluster_continue, cluster_used, chosen, base_name, capacity_of, cluster_unused,
  extension, file_ext_size, file_name_size, free_clusters, write_clusters, usable_for, block,
  next_of, write_cluster, file, get_in, get_found, success, get_chain, max_cluster_count, need,
  read_clusters,
}
use anc.Afs.Layout.{
  Buffer, kind, cluster_continue, cluster_used, owner_address, capacity_of, cluster_unused,
  file_ext_size, file_name_size, block, owner, max_cluster_count, dir_info_address, data_address,
}
use anc.Base.{
  ℕ, ◌+◌, ◌≤◌, ◌<◌, ◌≡◌, refl, sym, ap, ◌∙◌, ◌≢◌, inl, inr, true, false, Option, some, List, [],
  ◌∷◌, arith, ◌==◌, ==_iff, Bool-cases, same_text, length, take, drop,
}

holds-Apart : (b : ℕ) (xs : List ℕ) → holds b xs ≡ false → Apart b xs
holds-Apart b [] h = tt
holds-Apart b (x ∷ xs) h = (ground (arith, h), holds-Apart b xs (ground (arith, h)))

-- Clusters behind the first are continuations.
rest_kind :
    (p b : ℕ) (ids content : List ℕ) (m : Buffer)
    → Written false p ids content m
    → holds b ids ≡ true
    → kind b m ≡ cluster_continue
rest_kind p b [] content m w h = cc
rest_kind p b (x ∷ xs) content m (k, o, l, s, d, more) h = elim (Bool-cases (b == x)) [
  | inl e ↦
      let same : x ≡ b = sym ((==_iff b x).0 e) in subst (λ i. kind i m ≡ cluster_continue) same k
  | inr e ↦ rest_kind p b xs (drop (capacity_of false) content) m more (ground (arith, e, h))
]

other_kind :
    (name : List ℕ) (p b : ℕ) (m : Buffer) → kind b m ≢ cluster_used → is_file name p m b ≡ false
unfolding is_file
other_kind name p b m h =
    let no_match : (kind b m == cluster_used) ≡ false = ground (arith, h) in rw no_match refl

SameCluster-is_file :
    (name : List ℕ) (p b : ℕ) (m m' : Buffer)
    → IsCluster b
    → SameCluster b m m'
    → is_file name p m' b ≡ is_file name p m b
unfolding is_file
SameCluster-is_file name p b m m' c keep =
    let k = keep (owner_address b + 1) (inl (omega arith, omega arith)) in
    let o = keep (owner_address b) (inl (omega arith, omega arith)) in
    rw (k, o, SameCluster-filename b m m' c keep) refl

get_in_found :
    (name : List ℕ) (p : ℕ) (m : Buffer) (r : Option ℕ)
    → file name p m ≡ r
    → get_in (some p) name m ≡ get_found r m
unfolding get_in
get_in_found name p m r h = rw h refl

get_found_ids :
    (id : ℕ) (xs : List ℕ) (m : Buffer)
    → chain id m ≡ Walk.ids xs
    → get_found (some id) m ≡ some (success, read_clusters true xs m)
unfolding get_found get_chain
get_found_ids id xs m h = rw (h, get_found) refl

clusters_all : (ids : List ℕ) → AreClusters ids → AllClusters ids
clusters_all [] h = tt
clusters_all (x ∷ xs) (c, apart, cs) = (c, clusters_all xs cs)

spares_table :
    (ids : List ℕ) (y : ℕ)
    → AllClusters ids
    → dir_info_address ≤ y
    → y < data_address
    → SparesAll ids y
spares_table [] y h lo hi = tt
spares_table (x ∷ xs) y (c, cs) lo hi =
    ((inr (omega arith), inl (omega arith)), spares_table xs y cs lo hi)

module _ (p id : ℕ) (name old content rest : List ℕ) (m : Buffer) (c : IsCluster id)
    (olds : AllClusters old) (here : holds id old ≡ true)
    (picked : chosen id old content m ≡ id ∷ rest) where
  abbrev base : List ℕ
  base = base_name id m

  abbrev ext : List ℕ
  ext = extension id m

  abbrev freed : Buffer
  freed = free_clusters old m

  abbrev written : Buffer
  written = write_clusters true p base ext (id ∷ rest) content freed

  base_fits : length base ≤ file_name_size
  base_fits = get_text-le file_name_size (block id) m

  ext_fits : length ext ≤ file_ext_size
  ext_fits = get_text-le file_ext_size (block id + file_name_size) m

  ids_clusters : AreClusters (id ∷ rest)
  ids_clusters = subst AreClusters picked (chosen-AreClusters id old content m c)

  ids_written : Written true p (id ∷ rest) content written
  ids_written =
      write_clusters-Written p base ext true (id ∷ rest) content freed base_fits ext_fits
        ids_clusters

  written_outside : (y : ℕ) → SparesAll (id ∷ rest) y → written y ≡ freed y
  written_outside y s =
      write_clusters_outside p base ext base_fits ext_fits true (id ∷ rest) content freed y
        ids_clusters s

  Apart-kept : (b : ℕ) → IsCluster b → Apart b (id ∷ rest) → SameCluster b freed written
  Apart-kept b d a y h = written_outside y (spares_all b (id ∷ rest) y d a ids_clusters h)

  -- A cluster in use that is not on the file's chain is not touched.
  pub others_kept :
      (b : ℕ)
      → IsCluster b
      → kind b m ≢ cluster_unused
      → holds b old ≡ false
      → SameCluster b m written
  others_kept b d used off y h =
      let ne : b ≢ id = λ e. let same = ap (λ i. holds i old) e in cc in
      let refused : usable_for id old m b ≡ false = ground (arith, used, off) in
      let apart = subst (Apart b) picked (chosen-Apart id old content m b ne refused) in
      Apart-kept b d apart y h ∙ free_clusters-SameCluster b old m d olds off y h

  -- The table of directories is not touched.
  pub directories_kept : (y : ℕ) → dir_info_address ≤ y → y < data_address → written y ≡ m y
  directories_kept y lo hi =
      written_outside y (spares_table (id ∷ rest) y (clusters_all (id ∷ rest) ids_clusters) lo hi)
      ∙ free_clusters_outside old m y (spares_table old y olds lo hi)

  first_named : (base_name id written ≡ base_name id m) × (extension id written ≡ extension id m)
  unfolding write_clusters
  first_named =
      let (d, apart, cs) = ids_clusters in
      let next = next_of rest in
      let chunk = take (capacity_of true) content in
      let m1 = write_cluster true p base ext id next chunk freed in
      let keep =
        write_clusters-SameCluster p base ext base_fits ext_fits false id rest
          (drop (capacity_of true) content) m1 d apart cs in
      let (b, e) = SameCluster-names id m1 written c keep in
      let (b1, e1) =
        cluster_name p id next chunk m freed (length-take-le (capacity_of true) content) c in
      (b ∙ b1, e ∙ e1)

  is_first : is_file name p m id ≡ true → p < 256 → is_file name p written id ≡ true
  unfolding is_file
  is_first h small =
      let named : same_text (filename id m) name ≡ true = ground (arith, h) in
      let same_name = filename_of_names id m written first_named in
      let (kinds, owners, l, sz, st, more) = ids_written in
      let k : (kind id written == cluster_used) ≡ true = ground (arith, kinds) in
      let o : (owner id written == p) ≡ true = ground (arith, owners) in
      let n : same_text (filename id written) name ≡ true =
        ap (λ t. same_text t name) same_name ∙ named in
      rw (k, o, n) refl

  -- A cluster that was free or the file's holds no other file afterwards.
  usable_before :
      (b : ℕ) → 1 ≤ b → b < id → usable_for id old m b ≡ true → is_file name p written b ≡ false
  usable_before b lo below usable = elim (Bool-cases (holds b rest)) [
    | inl behind ↦
        let (k, o, l, s, w, more) = ids_written in
        let continued = rest_kind p b rest (drop (capacity_of true) content) written more behind in
        other_kind name p b written (λ e. omega arith)
    | inr off ↦
        let ne : b ≢ id = λ e. omega arith in
        let d : IsCluster b = (lo, omega arith) in
        let kept = Apart-kept b d (ne, holds-Apart b rest off) in
        let empty : kind b freed ≡ 0 = elim (Bool-cases (holds b old)) [
          | inl h ↦ kind-free_clusters b old m h olds
          | inr h ↦
              let zero_kind : kind b m ≡ 0 = ground (arith, usable, h) in
              free_clusters_zero old m (owner_address b + 1) zero_kind
        ] in
        let kinds = kept (owner_address b + 1) (inl (omega arith, omega arith)) in
        other_kind name p b written (λ e. omega arith)
  ]

  none_before :
      (b : ℕ) → 1 ≤ b → b < id → is_file name p m b ≡ false → is_file name p written b ≡ false
  none_before b lo below h = elim (Bool-cases (usable_for id old m b)) [
    | inl usable ↦ usable_before b lo below usable
    | inr refused ↦
        let d : IsCluster b = (lo, omega arith) in
        let other : (b == id) ≡ false = ground arith in
        let used : kind b m ≢ cluster_unused = λ e. ground (arith, refused, other) in
        let off : holds b old ≡ false = ground (arith, refused, other) in
        SameCluster-is_file name p b m written d (others_kept b d used off) ∙ h
  ]

  file_written : file name p m ≡ some id → p < 256 → file name p written ≡ some id
  unfolding file
  file_written h small =
      let (found, lo, hi, before_it) = first_found 1 max_cluster_count (is_file name p m) id h in
      first_intro 1 max_cluster_count (is_file name p written) id (is_first found small) lo hi
        λ b at below. none_before b at below (before_it b at below)

  pub get_in-written :
      file name p m ≡ some id
      → p < 256
      → length (id ∷ rest) ≡ need (length content)
      → get_in (some p) name written ≡ some (success, content)
  get_in-written h small enough =
      let len = subst (λ xs. length xs < chain_fuel) picked (length-chosen id old content m) in
      let linked = chain-Written p (id ∷ rest) content written len ids_clusters ids_written in
      let back =
        read_clusters-Written true p (id ∷ rest) content written ids_clusters
          (length-le-room id rest content enough) ids_written in
      get_in_found name p written (some id) (file_written h small)
      ∙ get_found_ids id (id ∷ rest) written linked
      ∙ ap (λ xs. some (success, xs)) back
