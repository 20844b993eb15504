-- ===== src/Afs/Valid/Chained.antt =====
-- What `validate` of cardreader/include/afs.hh assures of the image as a whole: the parents of the
-- directories, and the chain of each file.
use anc.Afs.Valid.Sound.{above, validate_dirs-Passed}
use mathlib.Core.Path.{subst}
use anc.Afs.Search.{filename}
use anc.Afs.Chain.{Walk}
use anc.Afs.Content.Paths.{IsTable}
use anc.Afs.Valid.{
  Verdict, validate_clusters, validate_file, verdict, Walk, then_validate, chain, validate_dirs,
  file_ok, validate, filename, validate_names,
}
use anc.Afs.Layout.{
  Buffer, cluster_continue, kind, cluster_used, max_cluster_count, max_dir_count, owner, valid_dir,
  dir,
}
use anc.Base.{
  ℕ, zero, suc, ◌+◌, ◌≤◌, ◌<◌, ◌≡◌, refl, sym, ap, ◌∙◌, ◌≢◌, inl, inr, Bool, true, false, not, ◌||◌,
  Option, none, some, List, [], ◌∷◌, arith, ltb, ◌==◌, if◌then◌else◌, ==_iff, Bool-cases, if_cases,
}

abbrev pub Chained : ℕ → Buffer → Type 0
Chained b m = (xs : List ℕ) × (chain b m ≡ Walk.ids xs)

then_validate-pass :
    (v : Verdict) (go : (ℕ → Bool) → Verdict) (after : ℕ → Bool)
    → then_validate v go ≡ Verdict.pass after
    → (used : ℕ → Bool) × (v ≡ Verdict.pass used) × (go used ≡ Verdict.pass after)
then_validate-pass (Verdict.pass used) go after h = (used, refl, h)
then_validate-pass Verdict.refused go after h = cc
then_validate-pass Verdict.thrown go after h = cc

validate_file-ids :
    (w : Walk) (used after : ℕ → Bool) (m : Buffer)
    → validate_file w used m ≡ Verdict.pass after
    → (xs : List ℕ) × (w ≡ Walk.ids xs)
unfolding validate_file
validate_file-ids (Walk.ids xs) used after m h = (xs, refl)
validate_file-ids Walk.invalid used after m h = cc
validate_file-ids Walk.no_fuel used after m h = cc

-- What a file at `from` or behind has when the loop returns `v`.
abbrev Through : ℕ → ℕ → ℕ → Buffer → Verdict → Type 0
Through count from b m v =
    (after : ℕ → Bool)
    → v ≡ Verdict.pass after
    → from ≤ b
    → b < from + count
    → kind b m ≡ cluster_used
    → Chained b m

file_kind :
    (b from : ℕ) (m : Buffer)
    → not (kind from m == cluster_used) ≡ true
    → kind b m ≡ cluster_used
    → b ≢ from
file_kind b from m g k = λ e.
    let same : kind from m ≡ cluster_used = ap (λ i. kind i m) (sym e) ∙ k in
    ground (arith, same, g)

validate_clusters-Through :
    (count from : ℕ) (names : List (ℕ × List ℕ)) (used : ℕ → Bool) (m : Buffer) (b : ℕ)
    → Through count from b m (validate_clusters count from names used m)
unfolding validate_clusters
validate_clusters-Through zero from names used m b = λ after h lo hi k. absurd (omega arith)
validate_clusters-Through (suc count) from names used m b =
    if_cases (Through (suc count) from b m) (ltb cluster_continue (kind from m)) (λ g after h. cc)
      λ g0.
        if_cases (Through (suc count) from b m) (not (kind from m == cluster_used))
          (λ g after h lo hi k.
            let ne = file_kind b from m g k in
            validate_clusters-Through count (from + 1) names used m b after h (omega arith)
              (omega arith) k)
          λ g.
            if_cases (Through (suc count) from b m) (not (file_ok from names m)) (λ f after h. cc)
              λ f after h lo hi k.
                let later = (owner from m, filename from m) ∷ names in
                let (mid, first_ok, rest_ok) =
                  then_validate-pass (validate_file (chain from m) used m)
                    (λ after. validate_clusters count (from + 1) later after m) after h in
                elim (Bool-cases (b == from)) [
                  | inl e ↦
                      subst (λ i. Chained i m) (sym ((==_iff b from).0 e))
                        (validate_file-ids (chain from m) used mid m first_ok)
                  | inr e ↦
                      validate_clusters-Through count (from + 1) later mid m b after rest_ok
                        (above from b lo e) (omega arith) k
                ]

-- The parent of each directory is a directory, and the chain of each file's first cluster is whole.
abbrev pub IsChecked : Buffer → Type 0
IsChecked m =
    IsTable m × ((b : ℕ) → 1 ≤ b → b ≤ max_cluster_count → kind b m ≡ cluster_used → Chained b m)

verdict-pass :
    (v : Verdict) (m : Buffer)
    → verdict v m ≡ some true
    → (after : ℕ → Bool) × (v ≡ Verdict.pass after)
unfolding verdict
verdict-pass (Verdict.pass after) m h = (after, refl)
verdict-pass Verdict.refused m h = cc
verdict-pass Verdict.thrown m h = cc

validate_lem :
    (m : Buffer)
    → validate m ≡ (
        if not (m 0 == 254) || not (m 1 == 1)
        then some false
        else validate_names (validate_dirs max_dir_count 1 [] m) m)
unfolding validate
validate_lem m = refl

checked_names :
    (b : Bool) (r : Option Bool)
    → ◌≡◌ {A = Option Bool} (if b then some false else r) (some true)
    → r ≡ some true
checked_names true r h = cc
checked_names false r h = h

validate_names-verdict :
    (names : List (ℕ × List ℕ)) (m : Buffer)
    → validate_names (some names) m
      ≡ verdict (validate_clusters max_cluster_count 1 names (λ _. false) m) m
unfolding validate_names
validate_names-verdict names m = refl

validate_names-none : (m : Buffer) → validate_names none m ≢ some true
unfolding validate_names
validate_names-none m = λ h. cc

table :
    (m : Buffer) (names : List (ℕ × List ℕ))
    → validate_dirs max_dir_count 1 [] m ≡ some names
    → (d : ℕ) → 1 ≤ d
    → d ≤ max_dir_count
    → valid_dir d m ≡ true
    → valid_dir (m (dir d)) m ≡ true
table m names h d lo hi = validate_dirs-Passed max_dir_count 1 [] m d names h lo (omega arith)

files :
    (m : Buffer) (names : List (ℕ × List ℕ))
    → validate_names (some names) m ≡ some true
    → (b : ℕ) → 1 ≤ b
    → b ≤ max_cluster_count
    → kind b m ≡ cluster_used
    → Chained b m
files m names h b lo hi =
    let (after, passed) =
      verdict-pass (validate_clusters max_cluster_count 1 names (λ _. false) m) m
        (sym (validate_names-verdict names m) ∙ h) in
    validate_clusters-Through max_cluster_count 1 names (λ _. false) m b after passed lo
      (omega arith)

checked :
    (m : Buffer) (r : Option (List (ℕ × List ℕ)))
    → validate_dirs max_dir_count 1 [] m ≡ r
    → validate_names r m ≡ some true
    → IsChecked m
checked m none e h = absurd (validate_names-none m h)
checked m (some names) e h = (table m names e, files m names h)

pub validate-IsChecked : (m : Buffer) → validate m ≡ some true → IsChecked m
validate-IsChecked m h =
    let r = validate_dirs max_dir_count 1 [] m in
    checked m r refl (
      checked_names (not (m 0 == 254) || not (m 1 == 1)) (validate_names r m)
        (sym (validate_lem m) ∙ h))
