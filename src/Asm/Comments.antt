-- ===== src/Asm/Comments.antt =====
-- `remove_comments` of assembler/include/tokenizer.hh, which runs before the tokens are read.
pub mod Lines
use anc.Base.{ℕ, Bool, true, false, not, ◌&&◌, ◌||◌, List, [], ◌∷◌, ◌==◌, if◌then◌else◌}

-- The state of the loop; `open_string` is the quote, 0 outside strings.
pub record Scan : Type 0 where
  pub open_string : ℕ
  pub escape : Bool
  pub comment : Bool

-- A character in a string. It is kept.
abbrev pub in_string : Scan → ℕ → Scan
in_string s ch =
    if ch == s.open_string && not s.escape
    then record s { open_string = 0; escape = false }
    else if ch == 92
    then record s { escape = true }
    else record s { escape = false }

-- A character outside strings, and whether it is kept: 34 and 39 are the quotes, 59 is `;`.
abbrev pub outside_string : Scan → ℕ → Scan × Bool
outside_string s ch =
    if not s.comment && (ch == 34 || ch == 39)
    then (record s { open_string = ch }, true)
    else if ch == 59
    then (record s { comment = true }, false)
    else if ch == 10
    then (record s { comment = false }, true)
    else (s, not s.comment)

abbrev pub scan : Scan → ℕ → Scan × Bool
scan s ch = if not (s.open_string == 0) then (in_string s ch, true) else outside_string s ch

abbrev pub kept : Bool → ℕ → List ℕ → List ℕ
kept keep ch rest = if keep then ch ∷ rest else rest

unfoldable pub remove_from : Scan → List ℕ → List ℕ
remove_from s [] = []
remove_from s (ch ∷ rest) = let next = scan s ch in kept next.1 ch (remove_from next.0 rest)

unfoldable pub remove_comments : List ℕ → List ℕ
unfolding remove_from
remove_comments program =
    remove_from (record { open_string = 0; escape = false; comment = false }) program
