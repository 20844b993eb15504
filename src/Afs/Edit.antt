-- ===== src/Afs/Edit.antt =====
-- The changes of an image in cardreader/include/afs.hh: `free_file`, `make_dir`, `touch`, `remove_file`,
-- `set_boot`, and the state of `AFS`.
use anc.Afs.Search.{parent, child, file, first}
use anc.Afs.Names.{name_ok, split_last, dot, is_empty}
use anc.Afs.Chain.{Walk, chain, ids, ids, invalid, no_fuel, Walk, chain}
use anc.Afs.Layout.{
  Buffer, metadata, set_text, clear, dir_name_size, block, dir, file_ext_size, cluster_size,
  file_name_size, valid_dir, cluster_used, max_dir_count, max_cluster_count, kind, cluster_unused,
}
use anc.Base.{
  ℕ, ◌+◌, Bool, true, false, not, ◌&&◌, ◌||◌, Option, none, some, List, [], ◌∷◌, ltb, ◌==◌,
  if◌then◌else◌, length, u8, update,
}

pub record Afs : Type 0 where
  pub buffer : Buffer
  pub current : ℕ
  pub corrupt : Bool

-- The result codes: 0, INVALID_DIRNAME_FILENAME, DIRNAME_FILENAME_TOO_LONG,
-- DIRNAME_FILENAME_ALREADY_EXIST, FILENAME_EXTENSION_TOO_LONG and NO_MORE_SPACE.
pub data Code : Type 0 where
  success invalid_name name_too_long already_exists extension_too_long no_more_space : Code

-- `start < 0 ? current : start`.
abbrev pub start_of : Option ℕ → Afs → ℕ
start_of none a = a.current
start_of (some d) a = d

-- One round of the loop of `free_file`.
unfoldable pub free_cluster : ℕ → Buffer → Buffer
unfolding metadata clear
free_cluster id m = clear (block id) cluster_size (metadata id 0 0 m)

unfoldable pub free_clusters : List ℕ → Buffer → Buffer
unfolding free_cluster
free_clusters [] m = m
free_clusters (id ∷ rest) m = free_clusters rest (free_cluster id m)

-- `none` is the exception of `chain`, before anything is freed.
abbrev pub free_chain : Walk → Buffer → Option Buffer
free_chain (ids bs) m = some (free_clusters bs m)
free_chain invalid m = none
free_chain no_fuel m = none

unfoldable pub free_file : ℕ → Buffer → Option Buffer
unfolding chain free_clusters
free_file id m = free_chain (chain id m) m

abbrev pub name_taken : List ℕ → ℕ → Buffer → Bool
name_taken name p m = elim (child name p m) [
  | some d ↦ true
  | none ↦ elim (file name p m) [ some f ↦ true | none ↦ false ]
]

unfoldable pub write_dir : ℕ → ℕ → List ℕ → Buffer → Buffer
unfolding set_text
write_dir d p name m = set_text dir_name_size (dir d + 1) name (update m (dir d) (u8 p))

abbrev pub take_dir : ℕ → List ℕ → Option ℕ → Afs → Code × Afs
take_dir p name none a = (no_more_space, a)
take_dir p name (some d) a = (success, record a { buffer = write_dir d p name a.buffer })

-- `make_dir` in the directory found for the path.
unfoldable pub make_dir_in : Option ℕ → List ℕ → Afs → Code × Afs
unfolding name_ok child file first valid_dir write_dir
make_dir_in none name a = (invalid_name, a)
make_dir_in (some p) name a =
    if not (name_ok name)
    then (invalid_name, a)
    else if ltb dir_name_size (length name)
    then (name_too_long, a)
    else if name_taken name p a.buffer
    then (already_exists, a)
    else take_dir p name (first 1 max_dir_count (λ d. not (valid_dir d a.buffer))) a

unfoldable pub make_dir : List ℕ → Afs → Code × Afs
unfolding make_dir_in parent
make_dir path a = let (p, name) = parent path a.current a.buffer in make_dir_in p name a

-- The name and the extension, `none` if there is no dot.
abbrev pub base_of : List ℕ → Option (List ℕ × List ℕ) → List ℕ
base_of name none = name
base_of name (some (base, ext)) = base

abbrev pub ext_of : Option (List ℕ × List ℕ) → List ℕ
ext_of none = []
ext_of (some (base, ext)) = ext

abbrev pub has_split : {A : Type 0} → Option A → Bool
has_split none = false
has_split (some a) = true

unfoldable pub write_file : ℕ → ℕ → List ℕ → List ℕ → Buffer → Buffer
unfolding set_text metadata clear
write_file b p base ext m = set_text file_ext_size (block b + file_name_size) ext (
    set_text file_name_size (block b) base
      (metadata b p cluster_used (clear (block b) cluster_size m)))

abbrev pub take_cluster : ℕ → List ℕ → List ℕ → Option ℕ → Afs → Code × Afs
take_cluster p base ext none a = (no_more_space, a)
take_cluster p base ext (some b) a =
    (success, record a { buffer = write_file b p base ext a.buffer })

-- The tests of `touch` behind `name_ok`.
abbrev pub touch_split : ℕ → List ℕ → Bool → List ℕ → List ℕ → Afs → Code × Afs
touch_split p name has_dot base ext a =
    if is_empty base || ltb file_name_size (length base)
    then (name_too_long, a)
    else if ltb file_ext_size (length ext)
    then (extension_too_long, a)
    else if has_dot && is_empty ext
    then (invalid_name, a)
    else if name_taken name p a.buffer
    then (already_exists, a)
    else take_cluster p base ext
        (first 1 max_cluster_count (λ b. kind b a.buffer == cluster_unused)) a

unfoldable pub touch_in : Option ℕ → List ℕ → Afs → Code × Afs
unfolding name_ok split_last child file first write_file
touch_in none name a = (invalid_name, a)
touch_in (some p) name a =
    let split = split_last dot name in
    if not (name_ok name)
    then (invalid_name, a)
    else touch_split p name (has_split split) (base_of name split) (ext_of split) a

unfoldable pub touch : List ℕ → Afs → Code × Afs
unfolding touch_in parent
touch path a = let (p, name) = parent path a.current a.buffer in touch_in p name a

-- `none` is the exception of `free_file`.
unfoldable pub remove_found : Option ℕ → Afs → Option (Bool × Afs)
unfolding free_file
remove_found none a = some (false, a)
remove_found (some f) a = elim (free_file f a.buffer) [
  | none ↦ none
  | some m ↦ some (true, record a { buffer = m })
]

unfoldable pub remove_in : Option ℕ → List ℕ → Afs → Option (Bool × Afs)
unfolding remove_found file
remove_in none name a = some (false, a)
remove_in (some p) name a = remove_found (file name p a.buffer) a

unfoldable pub remove_file : List ℕ → Option ℕ → Afs → Option (Bool × Afs)
unfolding remove_in parent
remove_file path start a =
    let (p, name) = parent path (start_of start a) a.buffer in remove_in p name a

-- `none` is the exception for boot code of more than 255 bytes.
unfoldable pub set_boot : List ℕ → Afs → Option Afs
unfolding set_text
set_boot boot a =
    if ltb 255 (length boot)
    then none
    else some (record a { buffer = set_text 255 2 boot a.buffer })
