-- ===== src/Asm/Lexer/Cursor.antt =====
-- The cursor on the tokens that the parser moves: the public methods of `Tokenizer` in
-- assembler/include/tokenizer.hh.
pub mod Coherent
use anc.Asm.Lexer.{Lexeme, lexeme, get_last_index, get_last_line, get_last_column}
use anc.Asm.Tree.{Token, TokenType}
use anc.Base.{
  ℕ, zero, suc, ◌+◌, ◌-◌, ◌&&◌, Option, none, some, List, [], ◌∷◌, ltb, leb, if◌then◌else◌, length,
  get_elem?,
}

-- `i` is the place of the current token.
pub record Cursor : Type 0 where
  pub tokens : List Lexeme
  pub current : Lexeme
  pub next : Lexeme
  pub i : ℕ
  pub module_name : List ℕ

-- The end of the file behind a token.
abbrev pub nil_behind : List ℕ → Lexeme → Lexeme
nil_behind module_name t =
    lexeme
      (record {
        index = get_last_index t;
        line = get_last_line t;
        column = get_last_column t;
        module_name = module_name;
      })
      [] TokenType.end

abbrev pub placed : Cursor → List Lexeme → ℕ → Lexeme → Lexeme → Cursor
placed c tokens i current next = record c { tokens = tokens; i = i; current = current; next = next }

-- The cursor at a token, with the token behind it or the end of the file. `none` is a token read behind
-- the last one, as it is where there is none at all.
abbrev pub with_next : Cursor → List Lexeme → ℕ → Lexeme → Option Cursor
with_next c tokens i current =
    if ltb 0 (length tokens) && leb (length tokens - 1) i
    then some (placed c tokens i current (nil_behind c.module_name current))
    else elim (get_elem? tokens (i + 1)) [
      | none ↦ none
      | some t ↦ some (placed c tokens i current t)
    ]

unfoldable pub next_token : Cursor → Option Cursor
next_token c = with_next c c.tokens (c.i + 1) c.next

-- At a place, or behind the last token.
abbrev pub at_place : Cursor → List Lexeme → ℕ → Option Cursor
at_place c tokens i =
    if leb (length tokens) i
    then some
        (placed c tokens i (nil_behind c.module_name c.current) (nil_behind c.module_name c.next))
    else elim (get_elem? tokens i) [ none ↦ none | some t ↦ with_next c tokens i t ]

unfoldable pub set_index : ℕ → Cursor → Option Cursor
set_index index c = at_place c c.tokens index

abbrev pub erase : ℕ → List Lexeme → List Lexeme
erase i [] = []
erase zero (t ∷ ts) = ts
erase (suc i) (t ∷ ts) = t ∷ erase i ts

unfoldable pub remove_current_token : Cursor → Option Cursor
remove_current_token c =
    if ltb c.i (length c.tokens) then at_place c (erase c.i c.tokens) c.i else some c

-- A token with another text and type.
abbrev pub retyped : Token → Lexeme → Lexeme
retyped new t = record t {
  token = record { value = new.value; type = new.type; module_name = t.token.module_name };
}

abbrev pub retype_at : Token → ℕ → List Lexeme → List Lexeme
retype_at new i [] = []
retype_at new zero (t ∷ ts) = retyped new t ∷ ts
retype_at new (suc i) (t ∷ ts) = t ∷ retype_at new i ts

unfoldable pub set_current_token : Token → Cursor → Cursor
set_current_token new c =
    if ltb c.i (length c.tokens)
    then record c { current = retyped new c.current; tokens = retype_at new c.i c.tokens }
    else c

-- The constructor's cursor on the tokens that were read.
unfoldable pub first_cursor : List ℕ → List Lexeme → Option Cursor
first_cursor module_name [] = none
first_cursor module_name (t ∷ []) = some (record {
  tokens = t ∷ [];
  current = t;
  next = nil_behind module_name t;
  i = 0;
  module_name = module_name;
})
first_cursor module_name (t ∷ u ∷ ts) =
    some (record { tokens = t ∷ u ∷ ts; current = t; next = u; i = 0; module_name = module_name })
