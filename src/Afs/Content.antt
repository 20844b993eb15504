-- ===== src/Afs/Content.antt =====
-- The contents of files in cardreader/include/afs.hh: `get_content` and `set_content`.
pub mod Buffers
pub mod Cluster
pub mod Written
pub mod Linked
pub mod Chosen
pub mod Freed
pub mod Rewrite
pub mod Writing
pub mod RoundTrip
pub mod Paths
pub mod Files
pub mod Refused
use anc.Cpu.Control.{copy_bytes}
use anc.Cpu.Control.Inspect.{slice}
use anc.Afs.Edit.{free_clusters, Afs, Code, invalid_name, no_more_space, start_of, success}
use anc.Afs.Search.{file, parent, base_name, extension}
use anc.Afs.Chain.{Walk, chain, ids, ids, invalid, no_fuel, Walk, chain}
use anc.Afs.Layout.{
  Buffer, capacity_of, cluster_used, metadata, block, cluster_continue, kind, max_cluster_count,
  set_text, cluster_unused, file_ext_size, header_size, set_word, file_name_size, get_word,
}
use anc.Base.{
  ℕ, zero, suc, ◌+◌, ◌-◌, ◌/◌, Bool, true, false, not, ◌&&◌, ◌||◌, Option, none, some, List, [],
  ◌∷◌, ◌++◌, ltb, ◌==◌, if◌then◌else◌, length, take, drop, u8, update,
}

-- The number of clusters that a content takes.
unfoldable pub need : ℕ → ℕ
need size =
    let first_capacity = capacity_of true in
    let next_capacity = capacity_of false in
    1
    + (if ltb first_capacity size
        then (size - first_capacity + next_capacity - 1) / next_capacity
        else 0)

-- Clusters `from` on that may be used, at most as many as are wanted, from `count` rounds.
unfoldable pub pick : ℕ → ℕ → ℕ → (ℕ → Bool) → List ℕ
pick from zero wanted usable = []
pick from (suc count) zero usable = []
pick from (suc count) (suc wanted) usable =
    let take_it = from ∷ pick (from + 1) count wanted usable in
    let skip_it = pick (from + 1) count (suc wanted) usable in
    if usable from then take_it else skip_it

abbrev pub holds : ℕ → List ℕ → Bool
holds b [] = false
holds b (x ∷ xs) = b == x || holds b xs

-- A cluster that is free or the file's own, but not its first.
abbrev pub usable_for : ℕ → List ℕ → Buffer → ℕ → Bool
usable_for id old m b = not (b == id) && (kind b m == cluster_unused || holds b old)

-- The first of the clusters behind, 0 if there is none.
abbrev pub next_of : List ℕ → ℕ
next_of [] = 0
next_of (b ∷ bs) = b

-- The name of the file is written back in its first cluster only.
abbrev pub set_name : Bool → ℕ → List ℕ → List ℕ → Buffer → Buffer
set_name true id base ext m =
    set_text file_ext_size (block id + file_name_size) ext
      (set_text file_name_size (block id) base m)
set_name false id base ext m = m

abbrev pub kind_of : Bool → ℕ
kind_of head = if head then cluster_used else cluster_continue

-- One round of the writing loop. `chunk` is the content of the cluster.
unfoldable pub write_cluster : Bool → ℕ → List ℕ → List ℕ → ℕ → ℕ → List ℕ → Buffer → Buffer
unfolding metadata set_text set_word copy_bytes
write_cluster head p base ext id next chunk m =
    let at = block id in
    let h = header_size head in
    copy_bytes chunk (at + h) (
      set_word (at + h - 2) (length chunk) (
        update (set_name head id base ext (metadata id p (kind_of head) m)) (at + h - 3) (u8 next)))

unfoldable pub write_clusters : Bool → ℕ → List ℕ → List ℕ → List ℕ → List ℕ → Buffer → Buffer
unfolding write_cluster
write_clusters head p base ext [] content m = m
write_clusters head p base ext (id ∷ rest) content m =
    write_clusters false p base ext rest (drop (capacity_of head) content)
      (write_cluster head p base ext id (next_of rest) (take (capacity_of head) content) m)

-- The clusters that the content is to be written to.
unfoldable pub chosen : ℕ → List ℕ → List ℕ → Buffer → List ℕ
unfolding need pick
chosen id old content m =
    id ∷ pick 1 max_cluster_count (need (length content) - 1) (usable_for id old m)

-- Nothing is written unless all clusters that are needed are there.
unfoldable pub rewrite_file : ℕ → ℕ → List ℕ → List ℕ → Buffer → Code × Buffer
unfolding chosen free_clusters write_clusters
rewrite_file p id old content m =
    let bs = chosen id old content m in
    if not (length bs == need (length content)) then (no_more_space, m) else (
      success,
      write_clusters true p (base_name id m) (extension id m) bs content (free_clusters old m),
    )

-- `none` is the exception of `chain`.
unfoldable pub set_chain : ℕ → ℕ → Walk → List ℕ → Buffer → Option (Code × Buffer)
unfolding rewrite_file
set_chain p id (ids old) content m = some (rewrite_file p id old content m)
set_chain p id invalid content m = none
set_chain p id no_fuel content m = none

unfoldable pub set_found : ℕ → Option ℕ → List ℕ → Buffer → Option (Code × Buffer)
unfolding set_chain chain
set_found p none content m = some (invalid_name, m)
set_found p (some id) content m = set_chain p id (chain id m) content m

-- `set_content` in the directory found for the path.
unfoldable pub set_in : Option ℕ → List ℕ → List ℕ → Buffer → Option (Code × Buffer)
unfolding set_found file
set_in none name content m = some (invalid_name, m)
set_in (some p) name content m = set_found p (file name p m) content m

abbrev pub with_buffer : Afs → Option (Code × Buffer) → Option (Code × Afs)
with_buffer a none = none
with_buffer a (some (code, m)) = some (code, record a { buffer = m })

unfoldable pub set_content : List ℕ → List ℕ → Option ℕ → Afs → Option (Code × Afs)
unfolding set_in parent
set_content path content start a =
    let (p, name) = parent path (start_of start a) a.buffer in
    with_buffer a (set_in p name content a.buffer)

-- The contents of the clusters of a chain.
unfoldable pub read_clusters : Bool → List ℕ → Buffer → List ℕ
unfolding slice
read_clusters head [] m = []
read_clusters head (id ∷ rest) m =
    let at = block id + header_size head in
    slice (get_word (at - 2) m) at m ++ read_clusters false rest m

-- `none` is the exception of `chain`.
unfoldable pub get_chain : Walk → Buffer → Option (List ℕ)
unfolding read_clusters
get_chain (ids bs) m = some (read_clusters true bs m)
get_chain invalid m = none
get_chain no_fuel m = none

unfoldable pub get_found : Option ℕ → Buffer → Option (Code × List ℕ)
unfolding get_chain chain
get_found none m = some (invalid_name, [])
get_found (some id) m = elim (get_chain (chain id m) m) [
  | none ↦ none
  | some content ↦ some (success, content)
]

unfoldable pub get_in : Option ℕ → List ℕ → Buffer → Option (Code × List ℕ)
unfolding get_found file
get_in none name m = some (invalid_name, [])
get_in (some p) name m = get_found (file name p m) m

-- The caller's string is left as it is, here empty, unless the result is `success`.
unfoldable pub get_content : List ℕ → Option ℕ → Afs → Option (Code × List ℕ)
unfolding get_in parent
get_content path start a =
    let (p, name) = parent path (start_of start a) a.buffer in get_in p name a.buffer
