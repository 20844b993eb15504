-- ===== src/Afs/Content/Paths.antt =====
-- The directory of a path in two images that agree on the table of directories: `directory` and
use anc.Afs.Search.Found.{some_inj}
-- `parent` of cardreader/include/afs.hh.
use mathlib.Core.Path.{subst}
use anc.Afs.Names.{is_empty, path_parts, slash, ends_with_slash, starts_with_slash, dot, split_last}
use anc.Afs.Search.Found.{first_found}
use anc.Afs.Content.Buffers.{Agree, get_text_same}
use anc.Afs.Search.{
  child, first, is_child, directory, enter_part, parent, parent_of, walk_parts, dir_name,
}
use anc.Afs.Layout.{
  Buffer, max_dir_count, dir, valid_dir, dir_info_address, data_address, dir_name_size,
}
use anc.Base.{
  ℕ, zero, suc, ◌+◌, ◌≤◌, ◌<◌, ◌≡◌, refl, sym, ap, ◌∙◌, inl, inr, Bool, true, false, ◌&&◌, ◌||◌,
  Option, none, some, List, [], ◌∷◌, arith, ◌==◌, if◌then◌else◌, Bool-cases, Option-cases, if_cases,
  same_text,
}

-- The table of directories is the same.
abbrev pub SameTable : Buffer → Buffer → Type 0
SameTable m m' = Agree dir_info_address data_address m m'

-- The parent of each directory is a directory.
abbrev pub IsTable : Buffer → Type 0
IsTable m =
    (d : ℕ) → 1 ≤ d → d ≤ max_dir_count → valid_dir d m ≡ true → valid_dir (m (dir d)) m ≡ true

first_same :
    (count from : ℕ) (f g : ℕ → Bool)
    → ((x : ℕ) → from ≤ x → x < from + count → f x ≡ g x)
    → first from count f ≡ first from count g
unfolding first
first_same zero from f g h = refl
first_same (suc count) from f g h =
    let here = h from (omega arith) (omega arith) in
    let later = first_same count (from + 1) f g (λ x lo hi. h x (omega arith) (omega arith)) in
    rw (here, later) refl

is_child_lem :
    (name : List ℕ) (p d : ℕ) (m : Buffer)
    → is_child name p m d ≡ (m (dir d) == p && (same_text (dir_name d m) name && valid_dir d m))
unfolding is_child
is_child_lem name p d m = refl

valid_dir_same :
    (d : ℕ) (m m' : Buffer) → m' (dir d + 1) ≡ m (dir d + 1) → valid_dir d m' ≡ valid_dir d m
unfolding valid_dir
valid_dir_same d m m' h = rw h refl

is_child_same :
    (name : List ℕ) (p d : ℕ) (m m' : Buffer)
    → SameTable m m'
    → 1 ≤ d
    → d ≤ max_dir_count
    → is_child name p m' d ≡ is_child name p m d
is_child_same name p d m m' h lo hi =
    let above = h (dir d) (omega arith) (omega arith) in
    let named = valid_dir_same d m m' (h (dir d + 1) (omega arith) (omega arith)) in
    let text =
      get_text_same dir_name_size (dir d + 1) m m' (λ x a b. h x (omega arith) (omega arith)) in
    is_child_lem name p d m' ∙ rw (above, named, text) refl ∙ sym (is_child_lem name p d m)

child_same :
    (name : List ℕ) (p : ℕ) (m m' : Buffer) → SameTable m m' → child name p m' ≡ child name p m
unfolding child
child_same name p m m' h =
    first_same max_dir_count 1 (is_child name p m') (is_child name p m)
      λ d lo hi. is_child_same name p d m m' h lo (omega arith)

and_last : (a b c : Bool) → (a && (b && c)) ≡ true → c ≡ true
and_last true true c h = h
and_last true false c h = cc
and_last false b c h = cc

child-valid :
    (name : List ℕ) (p d : ℕ) (m : Buffer) → child name p m ≡ some d → valid_dir d m ≡ true
unfolding child
child-valid name p d m h =
    let (is, lo, hi, before_it) = first_found 1 max_dir_count (is_child name p m) d h in
    and_last (m (dir d) == p) (same_text (dir_name d m) name) (valid_dir d m)
      (sym (is_child_lem name p d m) ∙ is)

-- The root and the directories of the table.
pub valid_bound : (d : ℕ) (m : Buffer) → valid_dir d m ≡ true → d ≤ max_dir_count
unfolding valid_dir
valid_bound d m h = ground (arith, h)

root_valid : (m : Buffer) → valid_dir 0 m ≡ true
unfolding valid_dir
root_valid m = refl

-- A part of a path leads to the same directory, which is valid.
abbrev Leads : Buffer → Option ℕ → Option ℕ → Type 0
Leads m r r' = (r' ≡ r) × ((d : ℕ) → r ≡ some d → valid_dir d m ≡ true)

leads_some :
    (m : Buffer) (d : ℕ) → valid_dir d m ≡ true → (e : ℕ) → some d ≡ some e → valid_dir e m ≡ true
leads_some m d h e same = subst (λ x. valid_dir x m ≡ true) (some_inj d e same) h

module _ (m m' : Buffer) (table : IsTable m) (same : SameTable m m') where
  up-Leads :
      (at : ℕ)
      → valid_dir at m ≡ true
      → Leads m
          (some (if at == 0 then 0 else m (dir at)))
          (some (if at == 0 then 0 else m' (dir at)))
  up-Leads at h = elim (Bool-cases (at == 0)) [
    | inl e ↦ rw e (refl, leads_some m 0 (root_valid m))
    | inr e ↦
        let small = valid_bound at m h in
        let up = same (dir at) (omega arith) (omega arith) in
        rw e (ap some up, leads_some m (m (dir at)) (table at (ground (arith, e)) small h))
  ]

  enter_part-Leads :
      (part : List ℕ) (at : ℕ)
      → valid_dir at m ≡ true
      → Leads m (enter_part part at m) (enter_part part at m')
  unfolding enter_part
  enter_part-Leads part at h = elim (Bool-cases (is_empty part || same_text part (dot ∷ []))) [
    | inl e ↦ rw e (refl, leads_some m at h)
    | inr e ↦ elim (Bool-cases (same_text part (dot ∷ dot ∷ []))) [
      | inl f ↦ rw (e, f) (up-Leads at h)
      | inr f ↦ rw (e, f) (child_same part at m m' same, λ d. child-valid part at d m)
    ]
  ]

  walk_parts-Leads :
      (parts : List (List ℕ)) (at : ℕ)
      → valid_dir at m ≡ true
      → Leads m (walk_parts parts at m) (walk_parts parts at m')
  unfolding walk_parts
  walk_parts-Leads [] at h = (refl, leads_some m at h)
  walk_parts-Leads (part ∷ parts) at h =
      let (agree, bound) = enter_part-Leads part at h in
      elim (Option-cases (enter_part part at m)) [
        | inl e ↦ rw (agree, e, walk_parts) (refl, λ d e. cc)
        | inr (next, e) ↦ rw (agree, e, walk_parts) (walk_parts-Leads parts next (bound next e))
      ]

  pub directory-Leads :
      (path : List ℕ) (start : ℕ)
      → valid_dir start m ≡ true
      → Leads m (directory path start m) (directory path start m')
  unfolding directory
  directory-Leads path start h =
      walk_parts-Leads (path_parts path) (if starts_with_slash path then 0 else start)
        (if_cases (λ d. valid_dir d m ≡ true) (starts_with_slash path) (λ _. root_valid m) λ _. h)

  parent_of-Leads :
      (path : List ℕ) (split : Option (List ℕ × List ℕ)) (start : ℕ)
      → valid_dir start m ≡ true
      → Leads m (parent_of path split start m).0 (parent_of path split start m').0
  unfolding parent_of
  parent_of-Leads path none start h = (refl, leads_some m start h)
  parent_of-Leads path (some ([], name)) start h = directory-Leads (slash ∷ []) start h
  parent_of-Leads path (some (c ∷ cs, name)) start h = directory-Leads (c ∷ cs) start h

  pub parent-Leads :
      (path : List ℕ) (start : ℕ)
      → valid_dir start m ≡ true
      → Leads m (parent path start m).0 (parent path start m').0
  unfolding parent
  parent-Leads path start h = elim (Bool-cases (is_empty path || ends_with_slash path)) [
    | inl e ↦ rw e (refl, λ d e. cc)
    | inr e ↦ rw e (parent_of-Leads path (split_last slash path) start h)
  ]

-- The name is the path's alone.
parent_of_name :
    (path : List ℕ) (split : Option (List ℕ × List ℕ)) (start : ℕ) (m m' : Buffer)
    → (parent_of path split start m').1 ≡ (parent_of path split start m).1
unfolding parent_of
parent_of_name path none start m m' = refl
parent_of_name path (some ([], name)) start m m' = refl
parent_of_name path (some (c ∷ cs, name)) start m m' = refl

pub parent_name :
    (path : List ℕ) (start : ℕ) (m m' : Buffer) → (parent path start m').1 ≡ (parent path start m).1
unfolding parent
parent_name path start m m' = elim (Bool-cases (is_empty path || ends_with_slash path)) [
  | inl e ↦ rw e refl
  | inr e ↦ rw e (parent_of_name path (split_last slash path) start m m')
]
