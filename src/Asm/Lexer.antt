-- ===== src/Asm/Lexer.antt =====
-- The tokens of a program: `Tokenizer::tokenize` of assembler/include/tokenizer.hh and the functions
-- that it calls, with the positions of types.hh. Characters are those of the C locale.
pub mod Text
pub mod Ends
pub mod Cursor
use anc.Base.{
  ℕ, zero, suc, ◌+◌, ◌-◌, ◌%◌, Bool, true, false, not, ◌&&◌, ◌||◌, Option, none, some, List, [],
  ◌∷◌, ◌++◌, ltb, leb, ◌==◌, if◌then◌else◌, codes, same_text, length, drop,
}
use anc.Asm.Lexer.Text.{
  is_alpha, is_digit, is_blank, lower_text, among, keywords, instruction_words,
}
use anc.Asm.Dump.{decimal_digits}
use anc.Asm.Tree.{Token, TokenType}

-- A token with its position.
pub record Lexeme : Type 0 where
  pub token : Token
  pub index : ℕ
  pub line : ℕ
  pub column : ℕ

pub data LexError : Type 0 where
  unexpected_character unexpected_in_number unexpected_end : Lexeme → LexError

-- Where a token starts, and its module.
pub record Start : Type 0 where
  pub index : ℕ
  pub line : ℕ
  pub column : ℕ
  pub module_name : List ℕ

-- Sums of positions are cut to 64 bits.
abbrev pub u64 : ℕ → ℕ
u64 n = n % 0x10000000000000000

abbrev pub Eaten : Type 0
Eaten = Lexeme × List LexError

abbrev pub lexeme : Start → List ℕ → TokenType → Lexeme
lexeme s text t = record {
  token = record { value = text; type = t; module_name = s.module_name };
  index = s.index;
  line = s.line;
  column = s.column;
}

abbrev pub eaten : Start → List ℕ → TokenType → Eaten
eaten s text t = (lexeme s text t, [])

-- An error ends the tokens.
abbrev pub stopped : Start → LexError → Eaten
stopped s e = (lexeme s [] TokenType.end, e ∷ [])

-- The tokens of one character.
abbrev pub single_type : ℕ → Option TokenType
single_type c =
    if c == 10
    then some TokenType.new_line
    else if c == 44 || c == 46 || c == 58
    then some TokenType.separator
    else if c == 59
    then some TokenType.comment
    else if c == 91
    then some TokenType.open_square_bracket
    else if c == 93
    then some TokenType.closed_square_bracket
    else if c == 40
    then some TokenType.open_round_bracket
    else if c == 41
    then some TokenType.closed_round_bracket
    else if c == 43 || c == 45 || c == 42 || c == 47
    then some TokenType.binary_operator
    else if c == 38 || c == 61 || c == 33
    then some TokenType.other
    else if c == 36
    then some TokenType.current_address
    else none

-- The digits up to a character that is none, and whether that is an error.
unfoldable pub digits : (ℕ → Bool) → (ℕ → Bool) → List ℕ → List ℕ × Bool
digits bad good [] = ([], false)
digits bad good (c ∷ cs) =
    let rest = digits bad good cs in
    if bad c then ([], true) else if good c then (c ∷ rest.0, rest.1) else ([], false)

abbrev pub number_token : Start → List ℕ → List ℕ × Bool → Eaten
number_token s prefix (text, failed) =
    if failed
    then stopped s (LexError.unexpected_in_number (lexeme s text TokenType.number_literal))
    else eaten s (prefix ++ text) TokenType.number_literal

abbrev pub binary_digits : List ℕ → List ℕ × Bool
binary_digits cs = digits (λ c. is_alpha c || ltb 49 c && leb c 57) (λ c. c == 48 || c == 49) cs

-- `z` and `Z` are taken.
abbrev pub hexadecimal_digits : List ℕ → List ℕ × Bool
hexadecimal_digits cs =
    digits (λ c. ltb 102 c && ltb c 122 || ltb 70 c && ltb c 90)
      (λ c. not (ltb c 48 || ltb 57 c && not (is_alpha c))) cs

abbrev pub plain_digits : List ℕ → List ℕ × Bool
plain_digits cs = digits is_alpha (λ c. not (ltb c 48 || ltb 57 c)) cs

abbrev pub eat_number : Start → ℕ → List ℕ → Eaten
eat_number s c [] = number_token s [] (plain_digits (c ∷ []))
eat_number s c (d ∷ cs) =
    if c == 48 && d == 98
    then number_token s (codes "0b") (binary_digits cs)
    else if c == 48 && d == 120
    then number_token s (codes "0x") (hexadecimal_digits cs)
    else number_token s [] (plain_digits (c ∷ d ∷ cs))

-- What stands for a character behind a backslash.
abbrev pub unescape : ℕ → List ℕ
unescape c =
    if c == 110
    then 10 ∷ []
    else if c == 116
    then 9 ∷ []
    else if c == 48
    then 0 ∷ []
    else if c == 92
    then 92 ∷ []
    else 92 ∷ c ∷ []

abbrev pub character : Bool → ℕ → List ℕ
character escape c = if escape then unescape c else if c == 92 then [] else c ∷ []

-- The text up to the closing quote, and whether it is there.
unfoldable pub string_body : ℕ → Bool → List ℕ → List ℕ × Bool
string_body ending escape [] = ([], false)
string_body ending escape (c ∷ cs) =
    let rest = string_body ending (not escape && c == 92) cs in
    if c == ending && not escape then ([], true) else (character escape c ++ rest.0, rest.1)

-- `std::to_string` of a `char` as an `int`.
abbrev pub character_code : ℕ → List ℕ
character_code c = if ltb c 128 then decimal_digits 3 c else 45 ∷ decimal_digits 3 (256 - c)

-- One character between apostrophes is a number.
abbrev pub string_token : Start → ℕ → List ℕ × Bool → Eaten
string_token s ending (body, false) =
    stopped s (LexError.unexpected_end (lexeme s (ending ∷ body) TokenType.string_literal))
string_token s ending (c ∷ [], true) =
    if ending == 39
    then eaten s (character_code c) TokenType.number_literal
    else eaten s (ending ∷ c ∷ ending ∷ []) TokenType.string_literal
string_token s ending (body, true) = eaten s (ending ∷ body ++ ending ∷ []) TokenType.string_literal

abbrev pub is_word : ℕ → Bool
is_word c = is_alpha c || is_digit c || c == 95

unfoldable pub word : List ℕ → List ℕ
word [] = []
word (c ∷ cs) = let rest = word cs in if is_word c then c ∷ rest else []

abbrev pub is_register_name : List ℕ → Bool
is_register_name (c ∷ d ∷ []) = (c == 108 || c == 114) && leb 48 d && leb d 55
is_register_name _ = false

abbrev pub eat_id_or_keyword : Start → List ℕ → Eaten
eat_id_or_keyword s value =
    let name = lower_text value in
    if among name keywords
    then eaten s name TokenType.keyword
    else if among name (codes "byte" ∷ codes "word" ∷ [])
    then eaten s name TokenType.type
    else if among name (codes "sizeof" ∷ codes "offset" ∷ [])
    then eaten s name TokenType.unary_left_operator
    else if among name instruction_words
    then eaten s name TokenType.instruction
    else if is_register_name name
    then eaten s name TokenType.register
    else eaten s value TokenType.identifier

abbrev pub eat_several : Start → ℕ → List ℕ → Eaten
eat_several s c cs =
    if is_alpha c || c == 95
    then eat_id_or_keyword s (word (c ∷ cs))
    else if is_digit c
    then eat_number s c cs
    else if c == 34 || c == 39
    then string_token s c (string_body c false cs)
    else stopped s (LexError.unexpected_character (lexeme s (c ∷ []) TokenType.other))

unfoldable pub eat_from : Start → List ℕ → Eaten
unfolding digits string_body word same_text
eat_from s [] = eaten s [] TokenType.end
eat_from s (c ∷ cs) =
    let several = eat_several s c cs in
    elim (single_type c) [ none ↦ several | some t ↦ eaten s (c ∷ []) t ]

unfoldable pub blanks : List ℕ → ℕ
blanks [] = 0
blanks (c ∷ cs) = let rest = blanks cs in if is_blank c then suc rest else 0

unfoldable pub eat : List ℕ → Start → Eaten
unfolding blanks eat_from
eat program s =
    let n = blanks (drop s.index program) in
    eat_from (record s { index = s.index + n; column = u64 (s.column + n) })
      (drop (s.index + n) program)

abbrev pub is_end : TokenType → Bool
is_end TokenType.end = true
is_end _ = false

abbrev pub is_string : TokenType → Bool
is_string TokenType.string_literal = true
is_string _ = false

abbrev pub get_last_index : Lexeme → ℕ
get_last_index t = length t.token.value + t.index

abbrev pub new_lines_in : List ℕ → ℕ
new_lines_in [] = 0
new_lines_in (c ∷ cs) = if c == 10 then suc (new_lines_in cs) else new_lines_in cs

abbrev pub get_last_line : Lexeme → ℕ
get_last_line t =
    if same_text t.token.value (codes "\n")
    then u64 (t.line + 1)
    else if is_string t.token.type
    then u64 (t.line + new_lines_in t.token.value)
    else t.line

-- `find_last_of('\n')`, all ones if there is none.
abbrev pub last_new_line : List ℕ → ℕ → ℕ → ℕ
last_new_line [] i found = found
last_new_line (c ∷ cs) i found = last_new_line cs (suc i) (if c == 10 then i else found)

-- Behind a string it is the place of its last new line, as `length - npos` is never `npos`.
abbrev pub get_last_column : Lexeme → ℕ
get_last_column t =
    if same_text t.token.value (codes "\n")
    then 1
    else if is_string t.token.type
    then last_new_line t.token.value 0 0xffffffffffffffff
    else u64 (length t.token.value + t.column)

-- The token first, with its errors.
abbrev pub after_token :
    Eaten → Option (List Lexeme × List LexError) → Option (List Lexeme × List LexError)
after_token (t, es) none = none
after_token (t, es) (some (ts, more)) = some (t ∷ ts, es ++ more)

abbrev pub next_start : Start → Lexeme → Start
next_start s t = record s {
  index = get_last_index t;
  line = get_last_line t;
  column = get_last_column t;
}

-- `none` when the fuel has run out.
unfoldable pub tokenize_from : ℕ → List ℕ → Start → Option (List Lexeme × List LexError)
unfolding eat same_text
tokenize_from zero program s = none
tokenize_from (suc fuel) program s =
    let one = eat program s in
    let rest = tokenize_from fuel program (next_start s one.0) in
    if is_end one.0.token.type then some (one.0 ∷ [], one.1) else after_token one rest

-- Each token but the last takes a character at least.
unfoldable pub tokenize : List ℕ → ℕ → List ℕ → Option (List Lexeme × List LexError)
unfolding tokenize_from
tokenize program line module_name =
    tokenize_from (length program + 1) program
      (record { index = 0; line = line; column = 1; module_name = module_name })
