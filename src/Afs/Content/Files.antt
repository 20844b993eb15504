-- ===== src/Afs/Content/Files.antt =====
-- `set_content` and `get_content` of cardreader/include/afs.hh on paths.
use mathlib.Core.Path.{subst}
use anc.Afs.Content.RoundTrip.{get_in-set_in, set_in_directories}
use anc.Afs.Content.Paths.{IsTable, SameTable, parent-Leads, parent_name, valid_bound}
use anc.Afs.Search.{parent}
use anc.Afs.Layout.{Buffer, valid_dir}
use anc.Afs.Content.{
  get_content, set_content, set_in, Buffer, Code, get_in, with_buffer, parent, success, start_of,
}
use anc.Afs.Edit.{Afs, Code, success, start_of}
use anc.Base.{ℕ, ◌≡◌, refl, sym, ap, ◌∙◌, ◌≢◌, true, Option, none, some, List, arith}

stored_pair : (x y : Code × Afs) → ◌≡◌ {A = Option (Code × Afs)} (some x) (some y) → x ≡ y
stored_pair x y h = cc

pub stored_inv :
    (a a' : Afs) (code : Code) (r : Option (Code × Buffer))
    → with_buffer a r ≡ some (code, a')
    → (m : Buffer) × (r ≡ some (code, m)) × (a' ≡ record a { buffer = m })
stored_inv a a' code none h = cc
stored_inv a a' code (some (c, m)) h =
    let both = stored_pair (c, record a { buffer = m }) (code, a') h in
    (m, ap (λ (r : Code × Afs). some (r.0, m)) both, ap (λ (r : Code × Afs). r.1) (sym both))

pub set_content_lem :
    (path content : List ℕ) (start : Option ℕ) (a : Afs)
    → set_content path content start a
      ≡ with_buffer a (
          set_in
            (parent path (start_of start a) a.buffer).0
            (parent path (start_of start a) a.buffer).1
            content
            a.buffer)
unfolding set_content
set_content_lem path content start a = refl

pub get_content_lem :
    (path : List ℕ) (start : Option ℕ) (a : Afs)
    → get_content path start a
      ≡ get_in
          (parent path (start_of start a) a.buffer).0
          (parent path (start_of start a) a.buffer).1
          a.buffer
unfolding get_content
get_content_lem path start a = refl

set_in-none :
    (name content : List ℕ) (m m' : Buffer) → set_in none name content m ≢ some (success, m')
unfolding set_in
set_in-none name content m m' = λ h. cc

pub start_same :
    (start : Option ℕ) (a : Afs) (m : Buffer)
    → start_of start (record a { buffer = m }) ≡ start_of start a
start_same none a m = refl
start_same (some d) a m = refl

-- What is written to the file found for a directory and a name.
written_file :
    (r : Option ℕ) (name content : List ℕ) (m m' : Buffer)
    → ((p : ℕ) → r ≡ some p → valid_dir p m ≡ true)
    → set_in r name content m ≡ some (success, m')
    → (get_in r name m' ≡ some (success, content)) × SameTable m m'
written_file none name content m m' bound h = absurd (set_in-none name content m m' h)
written_file (some p) name content m m' bound h =
    let small = valid_bound p m (bound p refl) in
    (get_in-set_in p name content m m' (omega arith) h, set_in_directories p name content m m' h)

-- On an image where the parent of each directory is a directory, and from a directory:
-- what `set_content` has written to a path with success, `get_content` reads back from that path.
pub content_read_back :
    (path content : List ℕ) (start : Option ℕ) (a a' : Afs)
    → valid_dir (start_of start a) a.buffer ≡ true
    → IsTable a.buffer
    → set_content path content start a ≡ some (success, a')
    → get_content path start a' ≡ some (success, content)
content_read_back path content start a a' small table h =
    let at = start_of start a in
    let found = parent path at a.buffer in
    let (m, wrote, after) =
      stored_inv a a' success (set_in found.0 found.1 content a.buffer)
        (sym (set_content_lem path content start a) ∙ h) in
    let (read, kept) =
      written_file found.0 found.1 content a.buffer m
        (parent-Leads a.buffer a.buffer table (λ x lo hi. refl) path at small).1 wrote in
    let name = parent_name path at a.buffer m in
    let same = (parent-Leads a.buffer m table kept path at small).0 in
    let again : get_content path start (record a { buffer = m }) ≡ some (success, content) =
      get_content_lem path start (record a { buffer = m })
      ∙ rw (start_same start a m, same, name) read in
    subst (λ x. get_content path start x ≡ some (success, content)) (sym after) again
