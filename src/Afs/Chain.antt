-- ===== src/Afs/Chain.antt =====
-- The chain of a file's clusters: `chain` of cardreader/include/afs.hh. The set of the clusters seen is a
-- function; the loop takes fuel.
pub mod Ends
use anc.Afs.Layout.{Buffer, block, file_name_size, max_cluster_count, file_ext_size}
use anc.Base.{ℕ, zero, suc, ◌+◌, Bool, true, false, ◌||◌, List, [], ◌∷◌, ltb, ◌==◌, if◌then◌else◌}

-- `invalid` is the runtime error.
pub data Walk : Type 0 where
  ids : List ℕ → Walk
  invalid : Walk
  no_fuel : Walk

abbrev pub before : ℕ → Walk → Walk
before id (ids rest) = ids (id ∷ rest)
before id invalid = invalid
before id no_fuel = no_fuel

-- Where the number of the next cluster stands.
abbrev pub link_address : Bool → ℕ → ℕ
link_address head id = block id + (if head then file_name_size + file_ext_size else 0)

abbrev pub see : (ℕ → Bool) → ℕ → ℕ → Bool
see seen id x = if x == id then true else seen x

-- `while (id)`; `head` tells that `ids` is empty.
unfoldable pub walk : ℕ → Bool → (ℕ → Bool) → ℕ → Buffer → Walk
walk zero head seen id m = no_fuel
walk (suc fuel) head seen id m =
    let rest = before id (walk fuel false (see seen id) (m (link_address head id)) m) in
    if id == 0 then ids [] else if ltb max_cluster_count id || seen id then invalid else rest

abbrev pub chain_fuel : ℕ
chain_fuel = 198

unfoldable pub chain : ℕ → Buffer → Walk
unfolding walk
chain id m = walk chain_fuel true (λ _. false) id m
