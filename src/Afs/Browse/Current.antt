-- ===== src/Afs/Browse/Current.antt =====
-- The current directory after `change_directory` of cardreader/include/afs.hh, and the files that
-- `get_files` lists.
use anc.Afs.Valid.Images.{is_file_lem}
use anc.Afs.Search.Found.{first_found}
use anc.Afs.Valid.Sound.{above}
use mathlib.Core.Path.{subst}
use anc.Afs.Valid.Chained.{validate-IsChecked}
use anc.Afs.Content.Paths.{directory-Leads}
use anc.Afs.Search.{directory, file, filename, is_file}
use anc.Afs.Valid.{validate}
use anc.Afs.Layout.{valid_dir, max_cluster_count, kind, cluster_used, owner}
use anc.Afs.Browse.{
  change_directory, go_to, valid_dir, directory, start_of, get_files, names_of, max_cluster_count,
  kind, cluster_used, owner, filename,
}
use anc.Afs.Edit.{Afs, start_of}
use anc.Base.{
  ℕ, zero, suc, ◌+◌, ◌≤◌, ◌<◌, ◌≡◌, refl, sym, ap, ◌∙◌, inl, inr, Bool, true, false, ◌&&◌, ◌||◌,
  Option, none, some, List, [], ◌∷◌, arith, ◌==◌, ==_iff, Bool-cases, if_cases, same_text,
}

go_to-valid :
    (r : Option ℕ) (a : Afs)
    → valid_dir a.current a.buffer ≡ true
    → ((d : ℕ) → r ≡ some d → valid_dir d a.buffer ≡ true)
    → valid_dir (go_to r a).1.current (go_to r a).1.buffer ≡ true
go_to-valid none a here leads = here
go_to-valid (some d) a here leads = leads d refl

change_directory_lem :
    (path : List ℕ) (start : Option ℕ) (a : Afs)
    → change_directory path start a ≡ go_to (directory path (start_of start a) a.buffer) a
unfolding change_directory
change_directory_lem path start a = refl

-- On an image that `validate` accepts, `change_directory` from a directory leads to a directory, or
-- leaves the current one: the current directory is one after it if it was one before.
pub change_directory-valid_dir :
    (path : List ℕ) (start : Option ℕ) (a : Afs)
    → validate a.buffer ≡ some true
    → valid_dir a.current a.buffer ≡ true
    → valid_dir (start_of start a) a.buffer ≡ true
    → valid_dir (change_directory path start a).1.current (change_directory path start a).1.buffer
      ≡ true
change_directory-valid_dir path start a v here from =
    let leads =
      directory-Leads a.buffer a.buffer (validate-IsChecked a.buffer v).0 (λ x lo hi. refl) path
        (start_of start a) from in
    subst (λ (r : Bool × Afs). valid_dir r.1.current r.1.buffer ≡ true)
      (sym (change_directory_lem path start a))
      (go_to-valid (directory path (start_of start a) a.buffer) a here leads.1)

abbrev pub has_text : List ℕ → List (List ℕ) → Bool
has_text key [] = false
has_text key (t ∷ ts) = same_text t key || has_text key ts

or_right : (a b : Bool) → b ≡ true → a || b ≡ true
or_right true b h = refl
or_right false b h = h

or_left : (a b : Bool) → a ≡ true → a || b ≡ true
or_left true b h = refl
or_left false b h = cc

-- A number in the range that passes the test has its name in the list.
has_text-names_of :
    (count from : ℕ) (test : ℕ → Bool) (name : ℕ → List ℕ) (key : List ℕ) (id : ℕ)
    → from ≤ id
    → id < from + count
    → test id ≡ true
    → same_text (name id) key ≡ true
    → has_text key (names_of count from test name) ≡ true
unfolding names_of
has_text-names_of zero from test name key id lo hi t s = absurd (omega arith)
has_text-names_of (suc count) from test name key id lo hi t s = elim (Bool-cases (id == from)) [
  | inl e ↦
      let same : id ≡ from = (==_iff id from).0 e in
      let first_test : test from ≡ true = ap test (sym same) ∙ t in
      let first_name : same_text (name from) key ≡ true =
        ap (λ i. same_text (name i) key) (sym same) ∙ s in
      rw first_test (
        or_left (same_text (name from) key) (has_text key (names_of count (from + 1) test name))
          first_name)
  | inr e ↦
      let later =
        has_text-names_of count (from + 1) test name key id (above from id lo e) (omega arith) t
          s in
      if_cases (λ names. has_text key names ≡ true) (test from)
        (λ _.
          or_right (same_text (name from) key) (has_text key (names_of count (from + 1) test name))
            later)
        λ _. later
]

three_hold : (a b c : Bool) → a && (b && c) ≡ true → (a && b ≡ true) × (c ≡ true)
three_hold true true c h = (refl, h)
three_hold true false c h = cc
three_hold false b c h = cc

listed :
    (p id : ℕ) (name : List ℕ) (a : Afs)
    → file name p a.buffer ≡ some id
    → (1 ≤ id)
      × (id < 1 + max_cluster_count)
      × (kind id a.buffer == cluster_used && owner id a.buffer == p ≡ true)
      × (same_text (filename id a.buffer) name ≡ true)
unfolding file
listed p id name a f =
    let (is, lo, hi, before_it) = first_found 1 max_cluster_count (is_file name p a.buffer) id f in
    let (test, named) =
      three_hold (kind id a.buffer == cluster_used) (owner id a.buffer == p)
        (same_text (filename id a.buffer) name) (sym (is_file_lem name p id a.buffer) ∙ is) in
    (lo, omega arith, test, named)

-- A file that is found in a directory is listed there.
pub get_files-file :
    (p id : ℕ) (name : List ℕ) (a : Afs)
    → file name p a.buffer ≡ some id
    → has_text name (get_files (some p) a) ≡ true
unfolding get_files
get_files-file p id name a f =
    let (lo, hi, test, named) = listed p id name a f in
    has_text-names_of max_cluster_count 1
      (λ b. kind b a.buffer == cluster_used && owner b a.buffer == p) (λ b. filename b a.buffer)
      name id lo hi test named
