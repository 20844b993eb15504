-- ===== src/Afs/Content/Refused.antt =====
-- The operations of cardreader/include/afs.hh that report an error leave the image as it was.
use anc.Afs.Content.Writing.{set_chain_ids, set_in_found}
use mathlib.Core.Path.{subst}
use anc.Afs.Content.Files.{stored_inv, set_content_lem}
use anc.Afs.Layout.{valid_dir, kind, cluster_unused}
use anc.Afs.Chain.{chain, Walk}
use anc.Afs.Search.{first, parent, base_name, file, extension}
use anc.Afs.Names.{is_empty, name_ok, split_last, dot}
use anc.Afs.Content.{
  rewrite_file, no_more_space, file_name_size, file_ext_size, max_cluster_count, kind, chosen,
  cluster_unused, set_chain, set_found, set_in, need, parent, set_content, start_of, write_clusters,
  base_name, file, extension, free_clusters,
}
use anc.Afs.Layout.{
  Buffer, dir_name_size, file_name_size, file_ext_size, max_cluster_count, max_dir_count, kind,
  valid_dir,
}
use anc.Afs.Edit.{
  Afs, Code, make_dir_in, success, touch_in, invalid_name, take_cluster, take_dir, touch_split,
  write_file, no_more_space, write_dir, has_split, name_too_long, base_of, name_taken,
  already_exists, ext_of, extension_too_long, make_dir, touch, start_of, free_clusters,
}
use anc.Base.{
  ℕ, ◌≡◌, refl, sym, ap, ◌∙◌, ◌⊎◌, inl, inr, Bool, true, not, ◌&&◌, ◌||◌, Option, none, some, List,
  ltb, ◌==◌, if◌then◌else◌, if_cases, length,
}

-- Nothing is changed unless the code is 0.
abbrev pub Kept : {A : Type 0} → A → Code × A → Type 0
Kept a r = (r.0 ≡ success) ⊎ (r.1 ≡ a)

refused-Kept : {A : Type 0} (code : Code) (a : A) → Kept a (code, a)
refused-Kept code a = inr refl

done-Kept : {A : Type 0} (a b : A) → Kept a (success, b)
done-Kept a b = inl refl

take_dir-Kept : (p : ℕ) (name : List ℕ) (d : Option ℕ) (a : Afs) → Kept a (take_dir p name d a)
take_dir-Kept p name none a = refused-Kept no_more_space a
take_dir-Kept p name (some d) a = done-Kept a (record a { buffer = write_dir d p name a.buffer })

make_dir_in-Kept : (p : Option ℕ) (name : List ℕ) (a : Afs) → Kept a (make_dir_in p name a)
unfolding make_dir_in
make_dir_in-Kept none name a = refused-Kept invalid_name a
make_dir_in-Kept (some p) name a =
    if_cases (Kept a) (not (name_ok name)) (λ _. refused-Kept invalid_name a)
      λ _.
        if_cases (Kept a) (ltb dir_name_size (length name)) (λ _. refused-Kept name_too_long a)
          λ _.
            if_cases (Kept a) (name_taken name p a.buffer) (λ _. refused-Kept already_exists a)
              λ _. take_dir-Kept p name (first 1 max_dir_count (λ d. not (valid_dir d a.buffer))) a

take_cluster-Kept :
    (p : ℕ) (base ext : List ℕ) (b : Option ℕ) (a : Afs) → Kept a (take_cluster p base ext b a)
take_cluster-Kept p base ext none a = refused-Kept no_more_space a
take_cluster-Kept p base ext (some b) a =
    done-Kept a (record a { buffer = write_file b p base ext a.buffer })

touch_split-Kept :
    (p : ℕ) (name : List ℕ) (has_dot : Bool) (base ext : List ℕ) (a : Afs)
    → Kept a (touch_split p name has_dot base ext a)
touch_split-Kept p name has_dot base ext a =
    if_cases (Kept a) (is_empty base || ltb file_name_size (length base))
      (λ _. refused-Kept name_too_long a)
      λ _.
        if_cases (Kept a) (ltb file_ext_size (length ext)) (λ _. refused-Kept extension_too_long a)
          λ _.
            if_cases (Kept a) (has_dot && is_empty ext) (λ _. refused-Kept invalid_name a)
              λ _.
                if_cases (Kept a) (name_taken name p a.buffer) (λ _. refused-Kept already_exists a)
                  λ _.
                    take_cluster-Kept p base ext
                      (first 1 max_cluster_count (λ b. kind b a.buffer == cluster_unused)) a

touch_in-Kept : (p : Option ℕ) (name : List ℕ) (a : Afs) → Kept a (touch_in p name a)
unfolding touch_in
touch_in-Kept none name a = refused-Kept invalid_name a
touch_in-Kept (some p) name a =
    let split = split_last dot name in
    if_cases (Kept a) (not (name_ok name)) (λ _. refused-Kept invalid_name a)
      λ _. touch_split-Kept p name (has_split split) (base_of name split) (ext_of split) a

-- What `set_content` does to the buffer, if it returns.
abbrev KeptIn : Buffer → Option (Code × Buffer) → Type 0
KeptIn m none = Unit
KeptIn m (some r) = Kept m r

rewrite_file_lem :
    (p id : ℕ) (old content : List ℕ) (m : Buffer)
    → rewrite_file p id old content m ≡ (
        if not (length (chosen id old content m) == need (length content))
        then (no_more_space, m)
        else (
          success,
          write_clusters true p
              (base_name id m)
              (extension id m)
              (chosen id old content m)
              content
              (free_clusters old m),
        ))
unfolding rewrite_file
rewrite_file_lem p id old content m = refl

rewrite_file-Kept :
    (p id : ℕ) (old content : List ℕ) (m : Buffer) → Kept m (rewrite_file p id old content m)
rewrite_file-Kept p id old content m =
    let bs = chosen id old content m in
    subst (Kept m) (sym (rewrite_file_lem p id old content m)) (
      if_cases (Kept m) (not (length bs == need (length content)))
        (λ _. refused-Kept no_more_space m)
        λ _. done-Kept m (
          write_clusters true p (base_name id m) (extension id m) bs content (free_clusters old m)))

set_chain-KeptIn :
    (p id : ℕ) (w : Walk) (content : List ℕ) (m : Buffer) → KeptIn m (set_chain p id w content m)
set_chain-KeptIn p id (Walk.ids old) content m =
    subst (KeptIn m) (sym (set_chain_ids p id old content m)) (rewrite_file-Kept p id old content m)
set_chain-KeptIn p id Walk.invalid content m = unfold set_chain in tt
set_chain-KeptIn p id Walk.no_fuel content m = unfold set_chain in tt

set_found-KeptIn :
    (p : ℕ) (r : Option ℕ) (content : List ℕ) (m : Buffer) → KeptIn m (set_found p r content m)
set_found-KeptIn p none content m = unfold set_found in refused-Kept invalid_name m
set_found-KeptIn p (some id) content m =
    let same : set_found p (some id) content m ≡ set_chain p id (chain id m) content m =
      unfold set_found in refl in
    subst (KeptIn m) (sym same) (set_chain-KeptIn p id (chain id m) content m)

set_in-KeptIn :
    (p : Option ℕ) (name content : List ℕ) (m : Buffer) → KeptIn m (set_in p name content m)
set_in-KeptIn none name content m = unfold set_in in refused-Kept invalid_name m
set_in-KeptIn (some p) name content m =
    subst (KeptIn m) (sym (set_in_found p name content m (file name p m) refl))
      (set_found-KeptIn p (file name p m) content m)

stored_same :
    (a a' : Afs) (code : Code) (m : Buffer)
    → a' ≡ record a { buffer = m }
    → Kept a.buffer (code, m)
    → (code ≡ success) ⊎ (a' ≡ a)
stored_same a a' code m after (inl done) = inl done
stored_same a a' code m after (inr same) =
    inr (after ∙ ap (λ (b : Buffer). record a { buffer = b }) same)

make_dir_lem :
    (path : List ℕ) (a : Afs)
    → make_dir path a
      ≡ make_dir_in (parent path a.current a.buffer).0 (parent path a.current a.buffer).1 a
unfolding make_dir
make_dir_lem path a = refl

touch_lem :
    (path : List ℕ) (a : Afs)
    → touch path a
      ≡ touch_in (parent path a.current a.buffer).0 (parent path a.current a.buffer).1 a
unfolding touch
touch_lem path a = refl

-- `make_dir` and `touch` return 0, or the image, the current directory and the mark of corruption are
-- as they were.
pub unchanged_unless_done :
    (path : List ℕ) (a : Afs)
    → (((make_dir path a).0 ≡ success) ⊎ ((make_dir path a).1 ≡ a))
      × (((touch path a).0 ≡ success) ⊎ ((touch path a).1 ≡ a))
unchanged_unless_done path a =
    let at = parent path a.current a.buffer in
    (
      subst (Kept a) (sym (make_dir_lem path a)) (make_dir_in-Kept at.0 at.1 a),
      subst (Kept a) (sym (touch_lem path a)) (touch_in-Kept at.0 at.1 a),
    )

-- When `set_content` returns, it returns 0, or the image, the current directory and the mark of
-- corruption are as they were.
pub set_content_unchanged :
    (path content : List ℕ) (start : Option ℕ) (a a' : Afs) (code : Code)
    → set_content path content start a ≡ some (code, a')
    → (code ≡ success) ⊎ (a' ≡ a)
set_content_unchanged path content start a a' code h =
    let found = parent path (start_of start a) a.buffer in
    let (m, same, after) =
      stored_inv a a' code (set_in found.0 found.1 content a.buffer)
        (sym (set_content_lem path content start a) ∙ h) in
    stored_same a a' code m after
      (subst (KeptIn a.buffer) same (set_in-KeptIn found.0 found.1 content a.buffer))
