-- ===== src/Afs/Valid.antt =====
-- The check of an image, `validate`, and opening one: cardreader/include/afs.hh.
pub mod Sound
pub mod Chained
pub mod Images
use anc.Afs.Content.{kind_of}
use anc.Afs.Search.{dir_name, filename, base_name}
use anc.Afs.Names.{name_ok, is_empty}
use anc.Cpu.Control.{copy_bytes}
use anc.Afs.Chain.{Walk, ids, no_fuel, see, before, invalid, chain}
use anc.Afs.Layout.{
  Buffer, valid_dir, dir, kind, max_cluster_count, max_dir_count, owner, cluster_continue,
  capacity_of, get_word, block, header_size, cluster_used,
}
use anc.Afs.Edit.{Afs}
use anc.Base.{
  ℕ, zero, suc, ◌+◌, ◌-◌, Bool, true, false, not, ◌&&◌, ◌||◌, Option, none, some, List, [], ◌∷◌,
  ltb, ◌==◌, if◌then◌else◌, same_text, length, take, update,
}

-- `names`, by the number of the directory and the name.
abbrev pub taken : ℕ → List ℕ → List (ℕ × List ℕ) → Bool
taken p name [] = false
taken p name ((q, other) ∷ names) = (p == q && same_text name other) || taken p name names

-- The loop from a directory up to the root: the directories passed, `invalid` for `return false`.
unfoldable pub climb : ℕ → (ℕ → Bool) → ℕ → Buffer → Walk
unfolding valid_dir
climb zero seen p m = no_fuel
climb (suc fuel) seen p m =
    let rest = before p (climb fuel (see seen p) (m (dir p)) m) in
    if p == 0 then ids [] else if not (valid_dir p m) || seen p then invalid else rest

abbrev pub climb_fuel : ℕ
climb_fuel = 98

abbrev pub is_ids : Walk → Bool
is_ids (ids xs) = true
is_ids invalid = false
is_ids no_fuel = false

unfoldable pub dir_ok : ℕ → List (ℕ × List ℕ) → Buffer → Bool
unfolding name_ok valid_dir climb
dir_ok d names m =
    name_ok (dir_name d m)
    && (valid_dir (m (dir d)) m
        && (not (taken (m (dir d)) (dir_name d m) names)
            && is_ids (climb climb_fuel (λ _. false) d m)))

-- The names after the loop over directories `d` on, `none` for `return false`.
unfoldable pub validate_dirs : ℕ → ℕ → List (ℕ × List ℕ) → Buffer → Option (List (ℕ × List ℕ))
unfolding dir_ok
validate_dirs zero d names m = some names
validate_dirs (suc count) d names m =
    let skip = validate_dirs count (d + 1) names m in
    let enter = validate_dirs count (d + 1) ((m (dir d), dir_name d m) ∷ names) m in
    if not (valid_dir d m) then skip else if not (dir_ok d names m) then none else enter

-- The clusters used after the loop over a chain.
unfoldable pub validate_chain : Bool → List ℕ → (ℕ → Bool) → Buffer → Option (ℕ → Bool)
validate_chain head [] used m = some used
validate_chain head (id ∷ rest) used m =
    let later = validate_chain false rest (see used id) m in
    if used id
      || (not (kind id m == kind_of head)
          || ltb (capacity_of head) (get_word (block id + header_size head - 2) m))
    then none
    else later

-- `thrown` is the exception of `chain`.
pub data Verdict : Type 0 where
  pass : (ℕ → Bool) → Verdict
  refused : Verdict
  thrown : Verdict

-- `!names.emplace(...).second` is in the test too.
abbrev pub file_ok : ℕ → List (ℕ × List ℕ) → Buffer → Bool
file_ok b names m =
    valid_dir (owner b m) m
    && (name_ok (filename b m)
        && (not (is_empty (base_name b m)) && not (taken (owner b m) (filename b m) names)))

unfoldable pub validate_file : Walk → (ℕ → Bool) → Buffer → Verdict
unfolding validate_chain
validate_file (ids xs) used m = elim (validate_chain true xs used m) [
  | none ↦ refused
  | some after ↦ pass after
]
validate_file invalid used m = thrown
validate_file no_fuel used m = thrown

abbrev pub then_validate : Verdict → ((ℕ → Bool) → Verdict) → Verdict
then_validate (pass used) go = go used
then_validate refused go = refused
then_validate thrown go = thrown

-- The clusters used after the loop over clusters `b` on.
unfoldable pub validate_clusters : ℕ → ℕ → List (ℕ × List ℕ) → (ℕ → Bool) → Buffer → Verdict
unfolding valid_dir name_ok filename chain validate_file
validate_clusters zero b names used m = pass used
validate_clusters (suc count) b names used m =
    let skip = validate_clusters count (b + 1) names used m in
    let enter =
      then_validate (validate_file (chain b m) used m)
        (λ after. validate_clusters count (b + 1) ((owner b m, filename b m) ∷ names) after m) in
    if ltb cluster_continue (kind b m)
    then refused
    else if not (kind b m == cluster_used)
    then skip
    else if not (file_ok b names m)
    then refused
    else enter

-- No continuation is left that is on no chain.
unfoldable pub no_orphan : ℕ → ℕ → (ℕ → Bool) → Buffer → Bool
no_orphan zero b used m = true
no_orphan (suc count) b used m =
    let rest = no_orphan count (b + 1) used m in
    if kind b m == cluster_continue && not (used b) then false else rest

unfoldable pub verdict : Verdict → Buffer → Option Bool
unfolding no_orphan
verdict (pass used) m = some (no_orphan max_cluster_count 1 used m)
verdict refused m = some false
verdict thrown m = none

unfoldable pub validate_names : Option (List (ℕ × List ℕ)) → Buffer → Option Bool
unfolding validate_clusters verdict
validate_names none m = some false
validate_names (some names) m =
    verdict (validate_clusters max_cluster_count 1 names (λ _. false) m) m

-- The result, `none` for the exception of `chain`.
unfoldable pub validate : Buffer → Option Bool
unfolding validate_dirs validate_names
validate m =
    if not (m 0 == 254) || not (m 1 == 1)
    then some false
    else validate_names (validate_dirs max_dir_count 1 [] m) m

abbrev pub image_size : ℕ
image_size = 65536

abbrev pub is_corrupt : Option Bool → Bool
is_corrupt none = true
is_corrupt (some valid) = not valid

-- The constructor that reads a file, of these bytes. An exception makes the image corrupt.
unfoldable pub open_image : List ℕ → Afs
unfolding validate copy_bytes
open_image bytes =
    let m = copy_bytes (take image_size bytes) 0 (λ _. 0) in
    record {
      buffer = m;
      current = 0;
      corrupt = if not (length bytes == image_size) then true else is_corrupt (validate m);
    }

-- The constructor of an empty image.
unfoldable pub new_image : Afs
new_image = record { buffer = update (update (λ _. 0) 0 254) 1 1; current = 0; corrupt = false }
