-- ===== src/Sample/Tokens.antt =====
-- Texts for the tokenizer of the assembler.
use anc.Base.{ℕ, ◌≡◌, refl, inl, Option, none, some, List, [], ◌∷◌, ◌++◌, arith, codes}
use anc.Asm.Lexer.{tokenize, Lexeme, LexError}
use anc.Asm.Lexer.Cursor.{
  Cursor, next_token, set_index, remove_current_token, set_current_token, first_cursor,
}
use anc.Asm.Lexer.Cursor.Coherent.{Coherent, Moved, cursor-Coherent}
use anc.Asm.Tree.{TokenType}
use anc.Asm.Lexer.Ends.{Ends, tokenize-Ends}

tokenize-Ends_example : Ends (tokenize (codes "add r1, 0x1F") 1 (codes "m"))
tokenize-Ends_example = tokenize-Ends (codes "add r1, 0x1F") 1 (codes "m")

abbrev texts_of : List Lexeme → List (List ℕ)
texts_of [] = []
texts_of (t ∷ ts) = t.token.value ∷ texts_of ts

abbrev texts : Option (List Lexeme × List LexError) → List (List ℕ)
texts none = []
texts (some (ts, es)) = texts_of ts

add_line :
    texts (tokenize (codes "add r1, 0x1F") 1 (codes "m"))
    ≡ codes "add" ∷ codes "r1" ∷ codes "," ∷ codes "0x1F" ∷ [] ∷ []
unfolding tokenize
add_line = refl

-- `'A'` is the number 65, of two characters, so that its closing apostrophe is read again.
letter_twice :
    texts (tokenize (39 ∷ 65 ∷ 39 ∷ codes " 1 " ++ 39 ∷ []) 1 (codes "m"))
    ≡ codes "65" ∷ (39 ∷ codes " 1 " ++ 39 ∷ []) ∷ [] ∷ []
unfolding tokenize
letter_twice = refl

-- The text of a string with `\n` is a character shorter than the string, whose last quote is read again.
quote_twice :
    texts (tokenize (34 ∷ 97 ∷ 92 ∷ 110 ∷ 34 ∷ 59 ∷ 34 ∷ []) 1 (codes "m"))
    ≡ (34 ∷ 97 ∷ 10 ∷ 34 ∷ []) ∷ (34 ∷ 59 ∷ 34 ∷ []) ∷ [] ∷ []
unfolding tokenize
quote_twice = refl

abbrev comma_token : Lexeme
comma_token = record {
  token = record { value = codes ","; type = TokenType.separator; module_name = codes "m" };
  index = 0;
  line = 1;
  column = 1;
}

abbrev end_token : Lexeme
end_token = record {
  token = record { value = []; type = TokenType.end; module_name = codes "m" };
  index = 1;
  line = 1;
  column = 2;
}

abbrev comma_cursor : Cursor
comma_cursor = record {
  tokens = comma_token ∷ end_token ∷ [];
  current = comma_token;
  next = end_token;
  i = 0;
  module_name = codes "m";
}

comma_cursor_lem : first_cursor (codes "m") (comma_token ∷ end_token ∷ []) ≡ some comma_cursor
unfolding first_cursor
comma_cursor_lem = refl

cursor-Coherent_example :
    Moved (next_token comma_cursor)
    × Moved (set_index 1 comma_cursor)
    × Moved (remove_current_token comma_cursor)
    × Coherent (set_current_token end_token.token comma_cursor)
cursor-Coherent_example =
    cursor-Coherent comma_cursor 1 end_token.token (omega arith) (inl refl, inl refl)
