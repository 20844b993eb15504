-- ===== src/Afs/Search/Found.antt =====
-- What a lookup that succeeds has found: the first match.
use anc.Afs.Content.Buffers.{get_text_same}
use anc.Afs.Content.Written.{SameCluster}
use anc.Afs.Content.Cluster.{IsCluster}
use anc.Afs.Layout.{Buffer, file_name_size, block, file_ext_size}
use anc.Afs.Search.{filename, first, Buffer, base_name, extension}
use anc.Base.{
  ℕ, zero, suc, ◌+◌, ◌≤◌, ◌<◌, ◌≡◌, refl, sym, ap, ◌∙◌, inl, inr, Bool, true, false, some, arith,
  ◌==◌, ==_iff, Bool-cases, if_cases,
}

abbrev pub NoneBefore : ℕ → ℕ → (ℕ → Bool) → Type 0
NoneBefore from id test = (b : ℕ) → from ≤ b → b < id → test b ≡ false

pub some_inj : (a b : ℕ) → some a ≡ some b → a ≡ b
some_inj a b h = cc

pub first_found :
    (from count : ℕ) (test : ℕ → Bool) (id : ℕ)
    → first from count test ≡ some id
    → (test id ≡ true) × (from ≤ id) × (id < from + count) × NoneBefore from id test
unfolding first
first_found from zero test id = λ h. cc
first_found from (suc count) test id =
    if_cases
      (λ w.
        w ≡ some id
        → (test id ≡ true) × (from ≤ id) × (id < from + suc count) × NoneBefore from id test)
      (test from)
      (λ t h.
        let same = some_inj from id h in
        (ap test (sym same) ∙ t, omega arith, omega arith, λ b lo hi. absurd (omega arith)))
      λ t h.
        let (found, lo, hi, none_before) = first_found (from + 1) count test id h in
        (
          found,
          omega arith,
          omega arith,
          λ b at below. elim (Bool-cases (from == b)) [
            | inl e ↦ let same : from ≡ b = (==_iff from b).0 e in ap test (sym same) ∙ t
            | inr e ↦ let later : from + 1 ≤ b = ground arith in none_before b later below
          ],
        )

pub first_intro :
    (from count : ℕ) (test : ℕ → Bool) (id : ℕ)
    → test id ≡ true
    → from ≤ id
    → id < from + count
    → NoneBefore from id test
    → first from count test ≡ some id
unfolding first
first_intro from zero test id t lo hi n = absurd (omega arith)
first_intro from (suc count) test id t lo hi n = elim (Bool-cases (from == id)) [
  | inl e ↦
      let same : from ≡ id = (==_iff from id).0 e in
      let here : test from ≡ true = ap test same ∙ t in rw here (ap some same)
  | inr e ↦
      let less : from < id = ground arith in
      rw (n from (omega arith) less) (
        first_intro (from + 1) count test id t (omega arith) (omega arith)
          (λ b at below. n b (omega arith) below))
]

-- A cluster that is left alone keeps the name in it.
pub SameCluster-names :
    (id : ℕ) (m m' : Buffer)
    → IsCluster id
    → SameCluster id m m'
    → (base_name id m' ≡ base_name id m) × (extension id m' ≡ extension id m)
SameCluster-names id m m' c keep = (
  get_text_same file_name_size (block id) m m' (λ x lo hi. keep x (inr (omega arith, omega arith))),
  get_text_same file_ext_size (block id + file_name_size) m m'
      (λ x lo hi. keep x (inr (omega arith, omega arith))),
)

pub filename_of_names :
    (id : ℕ) (m m' : Buffer)
    → (base_name id m' ≡ base_name id m) × (extension id m' ≡ extension id m)
    → filename id m' ≡ filename id m
unfolding filename
filename_of_names id m m' (base, ext) = rw (base, ext) refl

pub SameCluster-filename :
    (id : ℕ) (m m' : Buffer) → IsCluster id → SameCluster id m m' → filename id m' ≡ filename id m
SameCluster-filename id m m' c keep = filename_of_names id m m' (SameCluster-names id m m' c keep)
