-- ===== src/Afs/Valid/Sound.antt =====
-- What `validate` of cardreader/include/afs.hh assures of the directories, and that its loop up to
-- the root ends.
use anc.Afs.Content.Paths.{valid_bound}
use anc.Afs.Search.{dir_name}
use mathlib.Core.Path.{subst}
use anc.Afs.Names.{name_ok}
use anc.Afs.Chain.{Walk, see}
use anc.Afs.Chain.Ends.{unseen, unseen-le, unseen-see, before_ends}
use anc.Afs.Valid.{climb, validate_dirs, climb_fuel, dir_ok, Walk, name_ok, dir_name, taken, is_ids}
use anc.Afs.Layout.{Buffer, valid_dir, dir, max_dir_count}
use anc.Base.{
  ℕ, zero, suc, ◌+◌, ◌≤◌, ◌<◌, ◌≡◌, refl, sym, ap, ◌∙◌, ◌≢◌, inl, inr, Bool, true, false, not, ◌&&◌,
  ◌||◌, Option, some, List, ◌∷◌, arith, ◌==◌, ==_iff, Bool-cases, if_cases,
}

nor : (a b : Bool) → not a || b ≡ false → (a ≡ true) × (b ≡ false)
nor true b h = (refl, h)
nor false b h = cc

pub differ : (b : Bool) → b ≡ true → not b ≢ true
differ true h = λ e. cc
differ false h = λ e. cc

pub not_not : (b : Bool) → not b ≡ false → b ≡ true
not_not true h = refl
not_not false h = cc

second : (a b c : Bool) → a && (b && c) ≡ true → b ≡ true
second true true c h = refl
second true false c h = cc
second false b c h = cc

climb_ends :
    (fuel : ℕ) (seen : ℕ → Bool) (p : ℕ) (m : Buffer)
    → unseen max_dir_count seen + 1 < fuel
    → climb fuel seen p m ≢ Walk.no_fuel
unfolding climb
climb_ends zero seen p m h = absurd (omega arith)
climb_ends (suc fuel) seen p m h =
    if_cases (λ w. w ≢ Walk.no_fuel) (p == 0) (λ _ e. cc)
      λ z.
        if_cases (λ w. w ≢ Walk.no_fuel) (not (valid_dir p m) || seen p) (λ _ e. cc)
          λ g.
            let (valid, new) = nor (valid_dir p m) (seen p) g in
            let lo : 1 ≤ p = ground (arith, z) in
            let less = unseen-see max_dir_count p seen lo (valid_bound p m valid) new in
            before_ends p (climb fuel (see seen p) (m (dir p)) m)
              (climb_ends fuel (see seen p) (m (dir p)) m (omega arith))

-- The loop from a directory to the root ends within the fuel, in every image.
pub climb_fuel_lem : (p : ℕ) (m : Buffer) → climb climb_fuel (λ _. false) p m ≢ Walk.no_fuel
climb_fuel_lem p m =
    let bound = unseen-le max_dir_count (λ _. false) in
    climb_ends climb_fuel (λ _. false) p m (omega arith)

pub above : (from d : ℕ) → from ≤ d → (d == from) ≡ false → from + 1 ≤ d
above from d lo e = ground arith

dir_ok-valid :
    (d : ℕ) (names : List (ℕ × List ℕ)) (m : Buffer)
    → dir_ok d names m ≡ true
    → valid_dir (m (dir d)) m ≡ true
dir_ok-valid d names m h =
    second (name_ok (dir_name d m)) (valid_dir (m (dir d)) m)
      (not (taken (m (dir d)) (dir_name d m) names) && is_ids (climb climb_fuel (λ _. false) d m))
      (unfold dir_ok in h)

-- What a directory from `from` on has when the loop returns `r`.
abbrev pub Passed : ℕ → ℕ → ℕ → Buffer → Option (List (ℕ × List ℕ)) → Type 0
Passed count from d m r =
    (after : List (ℕ × List ℕ))
    → r ≡ some after
    → from ≤ d
    → d < from + count
    → valid_dir d m ≡ true
    → valid_dir (m (dir d)) m ≡ true

pub validate_dirs-Passed :
    (count from : ℕ) (names : List (ℕ × List ℕ)) (m : Buffer) (d : ℕ)
    → Passed count from d m (validate_dirs count from names m)
unfolding validate_dirs
validate_dirs-Passed zero from names m d = λ after h lo hi v. absurd (omega arith)
validate_dirs-Passed (suc count) from names m d =
    if_cases (Passed (suc count) from d m) (not (valid_dir from m))
      (λ g after h lo hi v.
        let ne : d ≢ from =
          λ e. differ (valid_dir from m) (ap (λ i. valid_dir i m) (sym e) ∙ v) g in
        validate_dirs-Passed count (from + 1) names m d after h (omega arith) (omega arith) v)
      λ g.
        if_cases (Passed (suc count) from d m) (not (dir_ok from names m)) (λ f after h. cc)
          λ f after h lo hi v. elim (Bool-cases (d == from)) [
            | inl e ↦
                let ok = not_not (dir_ok from names m) f in
                subst (λ i. valid_dir (m (dir i)) m ≡ true) (sym ((==_iff d from).0 e))
                  (dir_ok-valid from names m ok)
            | inr e ↦
                validate_dirs-Passed count (from + 1) ((m (dir from), dir_name from m) ∷ names) m d
                  after h (above from d lo e) (omega arith) v
          ]
