-- ===== src/Afs/Browse.antt =====
-- Looking around in an image, cardreader/include/afs.hh: `change_directory`, `get_current_dir`,
-- `get_sub_diectories` and `get_files`.
pub mod Current
use anc.Afs.Layout.{valid_dir, max_cluster_count, max_dir_count, dir, kind, cluster_used, owner}
use anc.Afs.Search.{directory, filename, dir_name}
use anc.Afs.Edit.{Afs, start_of}
use anc.Base.{
  ℕ, zero, suc, ◌+◌, Bool, true, false, ◌&&◌, Option, none, some, List, [], ◌∷◌, ◌==◌,
  if◌then◌else◌,
}

-- `for (id = from; id < from + count; ++id) if (test(id)) result.push_back(name(id));`.
unfoldable pub names_of : ℕ → ℕ → (ℕ → Bool) → (ℕ → List ℕ) → List (List ℕ)
names_of zero from test name = []
names_of (suc count) from test name =
    let rest = names_of count (from + 1) test name in if test from then name from ∷ rest else rest

unfoldable pub get_sub_diectories : Option ℕ → Afs → List (List ℕ)
unfolding names_of valid_dir
get_sub_diectories address a =
    names_of max_dir_count 1 (λ d. valid_dir d a.buffer && a.buffer (dir d) == start_of address a)
      (λ d. dir_name d a.buffer)

unfoldable pub get_files : Option ℕ → Afs → List (List ℕ)
unfolding names_of filename
get_files address a =
    names_of max_cluster_count 1
      (λ b. kind b a.buffer == cluster_used && owner b a.buffer == start_of address a)
      (λ b. filename b a.buffer)

unfoldable pub get_current_dir : Afs → List ℕ
get_current_dir a = if a.current == 0 then [] else dir_name a.current a.buffer

abbrev pub go_to : Option ℕ → Afs → Bool × Afs
go_to none a = (false, a)
go_to (some d) a = (true, record a { current = d })

unfoldable pub change_directory : List ℕ → Option ℕ → Afs → Bool × Afs
unfolding directory
change_directory path start a = go_to (directory path (start_of start a) a.buffer) a
