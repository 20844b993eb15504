-- ===== src/Afs/Search.antt =====
-- The lookups of cardreader/include/afs.hh: `filename`, `child`, `file`, `directory` and `parent`.
use anc.Afs.Names.{dot, ends_with_slash, path_parts, slash, is_empty, split_last, starts_with_slash}
pub mod Found
use anc.Base.{
  ℕ, zero, suc, ◌+◌, Bool, ◌&&◌, ◌||◌, Option, none, some, List, [], ◌∷◌, ◌++◌, ◌==◌, if◌then◌else◌,
  same_text,
}
use anc.Afs.Layout.{
  Buffer, get_text, max_cluster_count, max_dir_count, dir_name_size, file_ext_size, file_name_size,
  kind, valid_dir, block, cluster_used, dir, owner,
}

-- `for (id = from; id < from + count; ++id) if (test(id)) return id;`, `none` for -1.
unfoldable pub first : ℕ → ℕ → (ℕ → Bool) → Option ℕ
first from zero test = none
first from (suc count) test =
    let rest = first (from + 1) count test in if test from then some from else rest

abbrev with_extension : List ℕ → List ℕ → List ℕ
with_extension base [] = base
with_extension base (c ∷ cs) = base ++ (dot ∷ (c ∷ cs))

abbrev pub base_name : ℕ → Buffer → List ℕ
base_name id m = get_text file_name_size (block id) m

abbrev pub extension : ℕ → Buffer → List ℕ
extension id m = get_text file_ext_size (block id + file_name_size) m

unfoldable pub filename : ℕ → Buffer → List ℕ
filename id m = with_extension (base_name id m) (extension id m)

abbrev pub dir_name : ℕ → Buffer → List ℕ
dir_name id m = get_text dir_name_size (dir id + 1) m

unfoldable pub is_child : List ℕ → ℕ → Buffer → ℕ → Bool
unfolding same_text get_text valid_dir
is_child name parent_id m id =
    m (dir id) == parent_id && (same_text (dir_name id m) name && valid_dir id m)

unfoldable pub child : List ℕ → ℕ → Buffer → Option ℕ
unfolding first is_child
child name parent_id m = first 1 max_dir_count (is_child name parent_id m)

unfoldable pub is_file : List ℕ → ℕ → Buffer → ℕ → Bool
unfolding same_text filename
is_file name parent_id m id =
    kind id m == cluster_used && (owner id m == parent_id && same_text (filename id m) name)

unfoldable pub file : List ℕ → ℕ → Buffer → Option ℕ
unfolding first is_file
file name parent_id m = first 1 max_cluster_count (is_file name parent_id m)

-- One part of a path.
unfoldable pub enter_part : List ℕ → ℕ → Buffer → Option ℕ
unfolding same_text child
enter_part part at m =
    if is_empty part || same_text part (dot ∷ [])
    then some at
    else if same_text part (dot ∷ dot ∷ [])
    then some (if at == 0 then 0 else m (dir at))
    else child part at m

unfoldable pub walk_parts : List (List ℕ) → ℕ → Buffer → Option ℕ
unfolding enter_part
walk_parts [] at m = some at
walk_parts (part ∷ parts) at m = elim (enter_part part at m) [
  | none ↦ none
  | some next ↦ walk_parts parts next m
]

unfoldable pub directory : List ℕ → ℕ → Buffer → Option ℕ
unfolding path_parts walk_parts
directory path start m =
    walk_parts (path_parts path) (if starts_with_slash path then 0 else start) m

-- The directory that a path's last name stands in, and that name. The directory is `none` where the
-- source has -1.
unfoldable pub parent_of : List ℕ → Option (List ℕ × List ℕ) → ℕ → Buffer → Option ℕ × List ℕ
unfolding directory
parent_of path none start m = (some start, path)
parent_of path (some ([], name)) start m = (directory (slash ∷ []) start m, name)
parent_of path (some (c ∷ cs, name)) start m = (directory (c ∷ cs) start m, name)

-- `start` is the current directory unless the caller names one.
unfoldable pub parent : List ℕ → ℕ → Buffer → Option ℕ × List ℕ
unfolding parent_of ends_with_slash split_last
parent path start m =
    if is_empty path || ends_with_slash path
    then (none, [])
    else parent_of path (split_last slash path) start m
