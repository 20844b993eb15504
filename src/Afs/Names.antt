-- ===== src/Afs/Names.antt =====
-- Names and paths of cardreader/include/afs.hh: `name_ok`, and the parts of a path as `directory` and
-- `parent` take it apart.
use anc.Base.{
  ℕ, Bool, true, false, not, ◌&&◌, ◌||◌, Option, none, some, List, [], ◌∷◌, ltb, ◌==◌,
  if◌then◌else◌, same_text,
}

abbrev pub slash : ℕ
slash = 47

abbrev pub dot : ℕ
dot = 46

abbrev pub is_empty : List ℕ → Bool
is_empty [] = true
is_empty (x ∷ xs) = false

abbrev pub all_bytes : (ℕ → Bool) → List ℕ → Bool
all_bytes p [] = true
all_bytes p (x ∷ xs) = p x && all_bytes p xs

-- No control byte, `/`, `\` or `:`.
abbrev plain : ℕ → Bool
plain c = not (ltb c 32 || c == 127 || c == slash || c == 92 || c == 58)

unfoldable pub name_ok : List ℕ → Bool
unfolding same_text
name_ok name =
    not (is_empty name || same_text name (dot ∷ []) || same_text name (dot ∷ dot ∷ []))
    && all_bytes plain name

-- The parts that the loop over `std::getline(stream, part, '/')` sees, empty ones included; there is
-- none behind a last `/`.
abbrev add_byte : ℕ → List (List ℕ) → List (List ℕ)
add_byte c [] = (c ∷ []) ∷ []
add_byte c (part ∷ parts) = (c ∷ part) ∷ parts

unfoldable pub path_parts : List ℕ → List (List ℕ)
path_parts [] = []
path_parts (c ∷ cs) = let rest = path_parts cs in if c == slash then [] ∷ rest else add_byte c rest

abbrev pub starts_with_slash : List ℕ → Bool
starts_with_slash [] = false
starts_with_slash (c ∷ cs) = c == slash

unfoldable pub ends_with_slash : List ℕ → Bool
ends_with_slash [] = false
ends_with_slash (c ∷ []) = c == slash
ends_with_slash (c ∷ (d ∷ cs)) = ends_with_slash (d ∷ cs)

-- The text before and behind the last such byte, `find_last_of`; `none` is `npos`.
abbrev extend : ℕ → Bool → List ℕ → Option (List ℕ × List ℕ) → Option (List ℕ × List ℕ)
extend c found cs (some (before, behind)) = some (c ∷ before, behind)
extend c true cs none = some ([], cs)
extend c false cs none = none

unfoldable pub split_last : ℕ → List ℕ → Option (List ℕ × List ℕ)
split_last mark [] = none
split_last mark (c ∷ cs) = extend c (c == mark) cs (split_last mark cs)
