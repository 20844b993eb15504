-- ===== src/Afs/Valid/Images.antt =====
-- The operations of cardreader/include/afs.hh on an image that `validate` accepts.
use anc.Afs.Content.Files.{content_read_back, get_content_lem, set_content_lem}
use anc.Afs.Content.Writing.{set_chain_ids}
use anc.Afs.Search.Found.{first_found}
use anc.Afs.Valid.{validate, same_text}
use anc.Afs.Valid.Chained.{Chained, IsChecked, validate-IsChecked}
use anc.Afs.Content.{
  get_found, get_in, set_in, get_chain, set_chain, set_found, get_content, with_buffer, set_content,
}
use anc.Afs.Search.{file, is_file, filename, parent}
use anc.Afs.Layout.{Buffer, kind, cluster_used, valid_dir, max_cluster_count, owner}
use anc.Afs.Edit.{Afs, remove_found, Code, free_file, start_of, remove_file, success, remove_in}
use anc.Base.{
  ℕ, ◌≡◌, refl, sym, ◌∙◌, ◌≢◌, Bool, true, false, ◌&&◌, Option, none, some, List, arith, ◌==◌,
  ==_iff, same_text,
}
use anc.Afs.Chain.{chain, Walk}

both_first : (a b : Bool) → a && b ≡ true → a ≡ true
both_first true b h = refl
both_first false b h = cc

pub is_file_lem :
    (name : List ℕ) (p id : ℕ) (m : Buffer)
    → is_file name p m id
      ≡ (kind id m == cluster_used && (owner id m == p && same_text (filename id m) name))
unfolding is_file
is_file_lem name p id m = refl

file-Chained :
    (name : List ℕ) (p id : ℕ) (m : Buffer) → IsChecked m → file name p m ≡ some id → Chained id m
unfolding file
file-Chained name p id m (table, files) f =
    let (is, lo, hi, before_it) = first_found 1 max_cluster_count (is_file name p m) id f in
    let used =
      both_first (kind id m == cluster_used) (owner id m == p && same_text (filename id m) name)
        (sym (is_file_lem name p id m) ∙ is) in
    files id lo (omega arith) ((==_iff (kind id m) cluster_used).0 used)

-- A result of `file` whose chain is whole.
abbrev Whole : Option ℕ → Buffer → Type 0
Whole r m = (id : ℕ) → r ≡ some id → Chained id m

get_found-returns : (r : Option ℕ) (m : Buffer) → Whole r m → get_found r m ≢ none
unfolding get_found get_chain
get_found-returns none m c = λ h. cc
get_found-returns (some id) m c = let (xs, e) = c id refl in rw (e, get_found) λ h. cc

set_chain-returns :
    (p id : ℕ) (w : Walk) (xs content : List ℕ) (m : Buffer)
    → w ≡ Walk.ids xs
    → set_chain p id w content m ≢ none
set_chain-returns p id (Walk.ids old) xs content m e =
    λ h. let returned = sym (set_chain_ids p id old content m) ∙ h in cc
set_chain-returns p id Walk.invalid xs content m e = cc
set_chain-returns p id Walk.no_fuel xs content m e = cc

set_found-returns :
    (p : ℕ) (r : Option ℕ) (content : List ℕ) (m : Buffer)
    → Whole r m
    → set_found p r content m ≢ none
set_found-returns p none content m c = unfold set_found in λ h. cc
set_found-returns p (some id) content m c =
    let (xs, e) = c id refl in
    let same : set_found p (some id) content m ≡ set_chain p id (chain id m) content m =
      unfold set_found in refl in
    λ h. set_chain-returns p id (chain id m) xs content m e (sym same ∙ h)

remove_found-returns : (r : Option ℕ) (a : Afs) → Whole r a.buffer → remove_found r a ≢ none
unfolding remove_found free_file
remove_found-returns none a c = λ h. cc
remove_found-returns (some id) a c = let (xs, e) = c id refl in rw (e, remove_found) λ h. cc

get_in-returns : (r : Option ℕ) (name : List ℕ) (m : Buffer) → IsChecked m → get_in r name m ≢ none
unfolding get_in
get_in-returns none name m c = λ h. cc
get_in-returns (some p) name m c =
    get_found-returns (file name p m) m (λ id f. file-Chained name p id m c f)

set_in-returns :
    (r : Option ℕ) (name content : List ℕ) (m : Buffer)
    → IsChecked m
    → set_in r name content m ≢ none
unfolding set_in
set_in-returns none name content m c = λ h. cc
set_in-returns (some p) name content m c =
    set_found-returns p (file name p m) content m (λ id f. file-Chained name p id m c f)

with_buffer-returns : (a : Afs) (r : Option (Code × Buffer)) → r ≢ none → with_buffer a r ≢ none
with_buffer-returns a none c = λ h. c refl
with_buffer-returns a (some (code, m)) c = λ h. cc

remove_in-returns :
    (r : Option ℕ) (name : List ℕ) (a : Afs) → IsChecked a.buffer → remove_in r name a ≢ none
unfolding remove_in
remove_in-returns none name a c = λ h. cc
remove_in-returns (some d) name a c =
    remove_found-returns (file name d a.buffer) a (λ id f. file-Chained name d id a.buffer c f)

remove_file_lem :
    (path : List ℕ) (start : Option ℕ) (a : Afs)
    → remove_file path start a
      ≡ remove_in
          (parent path (start_of start a) a.buffer).0
          (parent path (start_of start a) a.buffer).1
          a
unfolding remove_file
remove_file_lem path start a = refl

-- On an image that `validate` accepts, `get_content`, `set_content` and `remove_file` do not throw,
-- whatever the path.
pub validate-returns :
    (path content : List ℕ) (start : Option ℕ) (a : Afs)
    → validate a.buffer ≡ some true
    → (get_content path start a ≢ none)
      × (set_content path content start a ≢ none)
      × (remove_file path start a ≢ none)
validate-returns path content start a v =
    let c = validate-IsChecked a.buffer v in
    let at = parent path (start_of start a) a.buffer in
    (
      (λ h. get_in-returns at.0 at.1 a.buffer c (sym (get_content_lem path start a) ∙ h)),
      (λ h.
          with_buffer-returns a (set_in at.0 at.1 content a.buffer)
            (set_in-returns at.0 at.1 content a.buffer c)
            (sym (set_content_lem path content start a) ∙ h)),
      (λ h. remove_in-returns at.0 at.1 a c (sym (remove_file_lem path start a) ∙ h)),
    )

-- On an image that `validate` accepts, from a directory: what `set_content` has written to a path with
-- success, `get_content` reads back from that path.
pub get_content-set_content :
    (path content : List ℕ) (start : Option ℕ) (a a' : Afs)
    → validate a.buffer ≡ some true
    → valid_dir (start_of start a) a.buffer ≡ true
    → set_content path content start a ≡ some (success, a')
    → get_content path start a' ≡ some (success, content)
get_content-set_content path content start a a' v dir h =
    content_read_back path content start a a' dir (validate-IsChecked a.buffer v).0 h
