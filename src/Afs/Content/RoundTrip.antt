-- ===== src/Afs/Content/RoundTrip.antt =====
-- A content that is written to a file is read back, and no other file is touched.
use anc.Afs.Content.Written.{SameCluster}
use anc.Afs.Content.Writing.{set_in-Rewritten}
use anc.Afs.Content.Rewrite.{get_in-written, directories_kept, others_kept}
use anc.Afs.Chain.{chain, Walk}
use anc.Afs.Edit.{success}
use mathlib.Core.Path.{subst}
use anc.Afs.Content.Cluster.{IsCluster}
use anc.Afs.Search.{file}
use anc.Afs.Content.{file, get_in, success, set_in, kind, cluster_unused, holds}
use anc.Afs.Layout.{Buffer, dir_info_address, kind, cluster_unused, data_address}
use anc.Base.{ℕ, ◌≤◌, ◌<◌, ◌≡◌, sym, ap, ◌∙◌, ◌≢◌, false, some, List}

-- What `set_content` has written to a file with success, `get_content` reads back.
pub get_in-set_in :
    (p : ℕ) (name content : List ℕ) (m m' : Buffer)
    → p < 256
    → set_in (some p) name content m ≡ some (success, m')
    → get_in (some p) name m' ≡ some (success, content)
get_in-set_in p name content m m' small h =
    let r = set_in-Rewritten p name content m m' h in
    let back =
      get_in-written p r.id name r.old content r.rest m r.cluster r.olds r.here r.picked r.found
        small r.enough in
    subst (λ b. get_in (some p) name b ≡ some (success, content)) (sym r.written) back

-- A successful `set_content` leaves every cluster in use that is not on the chain of the file as it
-- was, with its entry in the table.
pub set_in_others :
    (p b : ℕ) (name content : List ℕ) (m m' : Buffer)
    → set_in (some p) name content m ≡ some (success, m')
    → IsCluster b
    → kind b m ≢ cluster_unused
    → ((id : ℕ) (xs : List ℕ)
        → file name p m ≡ some id
        → chain id m ≡ Walk.ids xs
        → holds b xs ≡ false)
    → SameCluster b m m'
set_in_others p b name content m m' h c used off y inside =
    let r = set_in-Rewritten p name content m m' h in
    let kept =
      others_kept p r.id name r.old content r.rest m r.cluster r.olds r.here r.picked b c used
        (off r.id r.old r.found r.linked) y inside in
    ap (λ (b : Buffer). b y) r.written ∙ kept

-- Nor is the table of directories touched.
pub set_in_directories :
    (p : ℕ) (name content : List ℕ) (m m' : Buffer)
    → set_in (some p) name content m ≡ some (success, m')
    → (y : ℕ) → dir_info_address ≤ y
    → y < data_address
    → m' y ≡ m y
set_in_directories p name content m m' h y lo hi =
    let r = set_in-Rewritten p name content m m' h in
    let kept =
      directories_kept p r.id name r.old content r.rest m r.cluster r.olds r.here r.picked y lo
        hi in
    ap (λ (b : Buffer). b y) r.written ∙ kept
