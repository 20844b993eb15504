-- ===== src/Sample/Files.antt =====
-- An image with a directory and two files, and runs of the file system's operations on it
-- (cardreader/include/afs.hh).
use anc.Afs.Browse.Current.{change_directory-valid_dir}
use anc.Afs.Browse.{change_directory, get_files}
use anc.Afs.Content.Refused.{set_content_unchanged}
use anc.Afs.Content.Freed.{ids_inj}
use anc.Afs.Search.Found.{some_inj}
use mathlib.Core.Path.{subst}
use anc.Afs.Chain.Ends.{chain_ends}
use anc.Afs.Content.RoundTrip.{set_in_others}
use anc.Afs.Valid.Images.{get_content-set_content, validate-returns}
use anc.Afs.Search.{file}
use anc.Afs.Content.Written.{SameCluster}
use anc.Afs.Valid.{new_image, validate}
use anc.Afs.Content.{set_content, get_content, set_in, holds}
use anc.Afs.Layout.{Buffer, kind, valid_dir, cluster_unused, cluster_used}
use anc.Afs.Edit.{Afs, Code, make_dir, touch, success, remove_file, start_of, invalid_name}
use anc.Afs.Chain.{Walk, chain}
use anc.Base.{
  ℕ, ◌≡◌, refl, sym, ◌∙◌, ◌≢◌, ◌⊎◌, true, false, Option, none, some, List, [], ◌∷◌, arith,
}

-- "dev", "a.c", "b" and "dev/a.c".
abbrev dev : List ℕ
dev = 100 ∷ 101 ∷ 118 ∷ []

abbrev a_c : List ℕ
a_c = 97 ∷ 46 ∷ 99 ∷ []

abbrev b_name : List ℕ
b_name = 98 ∷ []

abbrev dev_a_c : List ℕ
dev_a_c = 100 ∷ 101 ∷ 118 ∷ 47 ∷ 97 ∷ 46 ∷ 99 ∷ []

abbrev with_dir : Code × Afs
with_dir = make_dir dev new_image

abbrev with_file : Code × Afs
with_file = touch dev_a_c with_dir.1

-- The directory `dev` and the files `dev/a.c` and `b`.
abbrev two_files : Afs
two_files = (touch b_name with_file.1).1

abbrev content : List ℕ
content = 7 ∷ 8 ∷ 9 ∷ []

abbrev state_after : Option (Code × Afs) → Afs
state_after none = two_files
state_after (some (code, a)) = a

abbrev saved : Option (Code × Afs)
saved = set_content dev_a_c content none two_files

saved_success : saved ≡ some (success, state_after saved)
unfolding set_content touch make_dir new_image
saved_success = refl

two_files_valid : validate two_files.buffer ≡ some true
unfolding validate touch make_dir new_image
two_files_valid = refl

dev_valid : valid_dir (start_of none two_files) two_files.buffer ≡ true
unfolding valid_dir touch make_dir new_image
dev_valid = refl

get_content-set_content_example :
    get_content dev_a_c none (state_after saved) ≡ some (success, content)
get_content-set_content_example =
    get_content-set_content dev_a_c content none two_files (state_after saved) two_files_valid
      dev_valid saved_success

validate-returns_example :
    (get_content dev_a_c none two_files ≢ none)
    × (set_content dev_a_c content none two_files ≢ none)
    × (remove_file dev_a_c none two_files ≢ none)
validate-returns_example = validate-returns dev_a_c content none two_files two_files_valid

chain_ends_example : chain 1 two_files.buffer ≢ Walk.no_fuel
chain_ends_example = chain_ends 1 two_files.buffer

-- `dev/a.c` is in cluster 1, `b` in cluster 2.
a_c_found : file a_c 1 two_files.buffer ≡ some 1
unfolding file touch make_dir new_image
a_c_found = refl

a_c_chain : chain 1 two_files.buffer ≡ Walk.ids (1 ∷ [])
unfolding chain touch make_dir new_image
a_c_chain = refl

b_kind : kind 2 two_files.buffer ≡ cluster_used
unfolding touch make_dir new_image
b_kind = refl

used_not_unused : cluster_used ≢ cluster_unused
used_not_unused = λ h. omega (arith, h)

b_used : kind 2 two_files.buffer ≢ cluster_unused
b_used = λ h. used_not_unused (sym b_kind ∙ h)

b_apart :
    (id : ℕ) (xs : List ℕ)
    → file a_c 1 two_files.buffer ≡ some id
    → chain id two_files.buffer ≡ Walk.ids xs
    → holds 2 xs ≡ false
b_apart id xs f c =
    let at : chain 1 two_files.buffer ≡ Walk.ids xs =
      subst (λ i. chain i two_files.buffer ≡ Walk.ids xs) (sym (some_inj 1 id (sym a_c_found ∙ f)))
        c in
    subst (λ ys. holds 2 ys ≡ false) (ids_inj (1 ∷ []) xs (sym a_c_chain ∙ at)) refl

abbrev buffer_after : Option (Code × Buffer) → Buffer
buffer_after none = two_files.buffer
buffer_after (some (code, m)) = m

abbrev rewritten : Option (Code × Buffer)
rewritten = set_in (some 1) a_c content two_files.buffer

rewritten_success : rewritten ≡ some (success, buffer_after rewritten)
unfolding set_in touch make_dir new_image
rewritten_success = refl

set_in_others_example : SameCluster 2 two_files.buffer (buffer_after rewritten)
set_in_others_example =
    set_in_others 1 2 a_c content two_files.buffer (buffer_after rewritten) rewritten_success
      (omega arith, omega arith) b_used b_apart

-- There is no file `dev`.
missing : set_content dev content none two_files ≡ some (invalid_name, two_files)
unfolding set_content touch make_dir new_image
missing = refl

set_content_unchanged_example : (invalid_name ≡ success) ⊎ (two_files ≡ two_files)
set_content_unchanged_example =
    set_content_unchanged dev content none two_files two_files invalid_name missing

change_directory-valid_dir_example :
    valid_dir
      (change_directory dev none two_files).1.current
      (change_directory dev none two_files).1.buffer
    ≡ true
change_directory-valid_dir_example =
    change_directory-valid_dir dev none two_files two_files_valid dev_valid dev_valid

root_files : get_files none two_files ≡ b_name ∷ []
unfolding get_files touch make_dir new_image
root_files = refl
