-- ===== src/Asm/Lexer/Ends.antt =====
-- `tokenize` of assembler/include/tokenizer.hh comes to its end.
use anc.Asm.Tree.{TokenType}
use anc.Base.{
  ℕ, zero, suc, ◌+◌, ◌-◌, ◌/◌, ◌%◌, ◌≤◌, ◌<◌, ◌≡◌, refl, ap, ◌⊎◌, inl, inr, Bool, true, false, not,
  ◌&&◌, ◌||◌, Option, none, some, List, [], ◌∷◌, ◌++◌, arith, ltb, ◌==◌, if◌then◌else◌, ltb→lt,
  Bool-cases, if_cases, option_cases, codes, length, drop,
}
use anc.Asm.Dump.{decimal_digits}
use anc.Asm.Lexer.Text.{is_alpha, is_digit, lower_text, among, keywords, instruction_words}
use anc.Asm.Lexer.{
  Lexeme, LexError, Start, Eaten, digits, number_token, string_token, eat_number, eat_from, eat,
  word, tokenize_from, tokenize, eat_id_or_keyword, eat_several, is_end, next_start, plain_digits,
  character_code, string_body, blanks, single_type, after_token, binary_digits, hexadecimal_digits,
  is_register_name, is_word, u64, lexeme, TokenType, stopped, eaten,
}
use anc.Asm.Encode.Length.{length-++}

abbrev HasText : Lexeme → Type 0
HasText t = (is_end t.token.type ≡ false) × (1 ≤ length t.token.value)

-- The last token, or one with a text, at this place.
abbrev Fits : Start → Eaten → Type 0
Fits s r = (r.0.index ≡ s.index) × ((is_end r.0.token.type ≡ true) ⊎ HasText r.0)

eaten-Fits : (s : Start) (text : List ℕ) (t : TokenType) → 1 ≤ length text → Fits s (eaten s text t)
eaten-Fits s text t h = (refl, elim (Bool-cases (is_end t)) [ inl e ↦ inl e | inr e ↦ inr (e, h) ])

stopped-Fits : (s : Start) (e : LexError) → Fits s (stopped s e)
stopped-Fits s e = (refl, inl refl)

number_token-Fits :
    (s : Start) (prefix : List ℕ) (r : List ℕ × Bool)
    → (r.1 ≡ true) ⊎ (1 ≤ length (prefix ++ r.0))
    → Fits s (number_token s prefix r)
number_token-Fits s prefix (text, true) h = (refl, inl refl)
number_token-Fits s prefix (text, false) (inl h) = cc
number_token-Fits s prefix (text, false) (inr h) =
    eaten-Fits s (prefix ++ text) TokenType.number_literal h

-- A digit is taken, or there is an error.
digits_first :
    (bad good : ℕ → Bool) (c : ℕ) (cs : List ℕ)
    → good c ≡ true
    → ((digits bad good (c ∷ cs)).1 ≡ true) ⊎ (1 ≤ length (digits bad good (c ∷ cs)).0)
unfolding digits
digits_first bad good c cs h =
    if_cases (λ (r : List ℕ × Bool). (r.1 ≡ true) ⊎ (1 ≤ length r.0)) (bad c) (λ _. inl refl)
      λ _. rw h (inr (omega arith))

is_plain : (c : ℕ) → is_digit c ≡ true → not (ltb c 48 || ltb 57 c) ≡ true
is_plain c h = ground arith

plain-Fits :
    (s : Start) (c : ℕ) (cs : List ℕ)
    → is_digit c ≡ true
    → Fits s (number_token s [] (plain_digits (c ∷ cs)))
plain-Fits s c cs h =
    number_token-Fits s [] (plain_digits (c ∷ cs))
      (digits_first is_alpha (λ d. not (ltb d 48 || ltb 57 d)) c cs (is_plain c h))

eat_number-Fits : (s : Start) (c : ℕ) (cs : List ℕ) → is_digit c ≡ true → Fits s (eat_number s c cs)
eat_number-Fits s c [] h = plain-Fits s c [] h
eat_number-Fits s c (d ∷ cs) h =
    if_cases (Fits s) (c == 48 && d == 98)
      (λ _. number_token-Fits s (codes "0b") (binary_digits cs) (inr (omega arith)))
      λ _.
        if_cases (Fits s) (c == 48 && d == 120)
          (λ _. number_token-Fits s (codes "0x") (hexadecimal_digits cs) (inr (omega arith)))
          λ _. plain-Fits s c (d ∷ cs) h

joined_length : (xs ys : List ℕ) → 1 ≤ length ys → 1 ≤ length (xs ++ ys)
joined_length xs ys h = let both = length-++ xs ys in omega arith

decimal_length : (n : ℕ) → 1 ≤ length (decimal_digits 3 n)
decimal_length n =
    if_cases (λ (xs : List ℕ). 1 ≤ length xs) (ltb n 10) (λ _. omega arith)
      λ _. joined_length (decimal_digits 2 (n / 10)) ((48 + n % 10) ∷ []) (omega arith)

code_length : (c : ℕ) → 1 ≤ length (character_code c)
code_length c =
    if_cases (λ (xs : List ℕ). 1 ≤ length xs) (ltb c 128) (λ _. decimal_length c)
      λ _. let more = decimal_length (256 - c) in omega arith

string_token-Fits : (s : Start) (ending : ℕ) (r : List ℕ × Bool) → Fits s (string_token s ending r)
string_token-Fits s ending (body, false) = (refl, inl refl)
string_token-Fits s ending ([], true) =
    eaten-Fits s (ending ∷ ending ∷ []) TokenType.string_literal (omega arith)
string_token-Fits s ending (c ∷ [], true) =
    if_cases (Fits s) (ending == 39)
      (λ _. eaten-Fits s (character_code c) TokenType.number_literal (code_length c))
      λ _. eaten-Fits s (ending ∷ c ∷ ending ∷ []) TokenType.string_literal (omega arith)
string_token-Fits s ending (c ∷ d ∷ rest, true) =
    eaten-Fits s (ending ∷ (c ∷ d ∷ rest) ++ ending ∷ []) TokenType.string_literal (omega arith)

-- Any of the word's kinds.
eat_id_or_keyword-Fits :
    (s : Start) (value : List ℕ)
    → 1 ≤ length value
    → 1 ≤ length (lower_text value)
    → Fits s (eat_id_or_keyword s value)
eat_id_or_keyword-Fits s value h g =
    let name = lower_text value in
    let one = λ (t : TokenType). eaten-Fits s name t g in
    if_cases (Fits s) (among name keywords) (λ _. one TokenType.keyword)
      λ _.
        if_cases (Fits s) (among name (codes "byte" ∷ codes "word" ∷ [])) (λ _. one TokenType.type)
          λ _.
            if_cases (Fits s) (among name (codes "sizeof" ∷ codes "offset" ∷ []))
              (λ _. one TokenType.unary_left_operator)
              λ _.
                if_cases (Fits s) (among name instruction_words) (λ _. one TokenType.instruction)
                  λ _.
                    if_cases (Fits s) (is_register_name name) (λ _. one TokenType.register)
                      λ _. eaten-Fits s value TokenType.identifier h

word_first : (c : ℕ) (cs : List ℕ) → is_word c ≡ true → word (c ∷ cs) ≡ c ∷ word cs
unfolding word
word_first c cs h = rw h refl

letter : (c : ℕ) → is_alpha c || c == 95 ≡ true → is_word c ≡ true
letter c h = ground arith

word-Fits :
    (s : Start) (c : ℕ) (cs : List ℕ)
    → is_word c ≡ true
    → Fits s (eat_id_or_keyword s (word (c ∷ cs)))
word-Fits s c cs h =
    rw (word_first c cs h) (eat_id_or_keyword-Fits s (c ∷ word cs) (omega arith) (omega arith))

eat_several-Fits : (s : Start) (c : ℕ) (cs : List ℕ) → Fits s (eat_several s c cs)
eat_several-Fits s c cs =
    if_cases (Fits s) (is_alpha c || c == 95) (λ h. word-Fits s c cs (letter c h))
      λ _.
        if_cases (Fits s) (is_digit c) (λ h. eat_number-Fits s c cs h)
          λ _.
            if_cases (Fits s) (c == 34 || c == 39)
              (λ _. string_token-Fits s c (string_body c false cs))
              λ _.
                stopped-Fits s (LexError.unexpected_character (lexeme s (c ∷ []) TokenType.other))

eat_from-Fits : (s : Start) (rest : List ℕ) → Fits s (eat_from s rest)
unfolding eat_from
eat_from-Fits s [] = (refl, inl refl)
eat_from-Fits s (c ∷ cs) =
    option_cases (Fits s) (single_type c) (λ _. eat_several-Fits s c cs)
      λ t _. eaten-Fits s (c ∷ []) t (omega arith)

drop_end : (n : ℕ) (xs : List ℕ) → length xs ≤ n → drop n xs ≡ []
drop_end zero [] h = refl
drop_end zero (x ∷ xs) h = absurd (omega arith)
drop_end (suc n) [] h = refl
drop_end (suc n) (x ∷ xs) h = drop_end n xs (omega arith)

end_of_text : (s : Start) (rest : List ℕ) → rest ≡ [] → is_end (eat_from s rest).0.token.type ≡ true
unfolding eat_from
end_of_text s [] h = refl
end_of_text s (c ∷ cs) h = cc

-- A token with a text stands before the end of the program, at the start or behind it.
abbrev Moves : List ℕ → Start → Lexeme → Type 0
Moves program s t =
    (is_end t.token.type ≡ true) ⊎ (HasText t × (s.index ≤ t.index) × (s.index < length program))

at_end : (i n size : ℕ) → ltb i size ≡ false → size ≤ i + n
at_end i n size h = ground arith

eat-Moves : (program : List ℕ) (s : Start) → Moves program s (eat program s).0
unfolding eat
eat-Moves program s =
    let n = blanks (drop s.index program) in
    let start : Start = record s { index = s.index + n; column = u64 (s.column + n) } in
    let rest = drop (s.index + n) program in
    let (there, kind) = eat_from-Fits start rest in
    elim (Bool-cases (ltb s.index (length program))) [
      | inr h ↦ inl (
          end_of_text start rest
            (drop_end (s.index + n) program (at_end s.index n (length program) h)))
      | inl h ↦ elim kind [
        | inl e ↦ inl e
        | inr text ↦ inr (text, omega arith, ltb→lt s.index (length program) h)
      ]
    ]

abbrev pub AreTexts : List Lexeme → Type 0
AreTexts [] = Unit
AreTexts (t ∷ ts) = (is_end t.token.type ≡ false) × (1 ≤ length t.token.value) × AreTexts ts

-- Tokens with a text, then the end.
abbrev pub Ends : Option (List Lexeme × List LexError) → Type 0
Ends r =
    (ts : List Lexeme) × (last : Lexeme) × (es : List LexError) × (r ≡ some (ts ++ last ∷ [], es))
    × AreTexts ts
    × (is_end last.token.type ≡ true)

tokenize_from_lem :
    (fuel : ℕ) (program : List ℕ) (s : Start)
    → tokenize_from (suc fuel) program s ≡ (
        if is_end (eat program s).0.token.type
        then some ((eat program s).0 ∷ [], (eat program s).1)
        else after_token
            (eat program s)
            (tokenize_from fuel program (next_start s (eat program s).0)))
unfolding tokenize_from
tokenize_from_lem fuel program s = refl

same_tokens :
    (us vs : List Lexeme) (es fs : List LexError)
    → ◌≡◌ {A = Option (List Lexeme × List LexError)} (some (us, es)) (some (vs, fs))
    → us ≡ vs
same_tokens us vs es fs h = cc

after_token-Ends :
    (one : Eaten) (r : Option (List Lexeme × List LexError))
    → HasText one.0
    → Ends r
    → Ends (after_token one r)
after_token-Ends (t, noted) none text (ts, last, es, h, texts, ends) = cc
after_token-Ends (t, noted) (some (us, more)) (some_type, long) (ts, last, es, h, texts, ends) = (
  t ∷ ts,
  last,
  noted ++ more,
  ap (λ vs. some (t ∷ vs, noted ++ more)) (same_tokens us (ts ++ last ∷ []) more es h),
  (some_type, long, texts),
  ends,
)

tokenize_from-Ends :
    (fuel : ℕ) (program : List ℕ) (s : Start)
    → length program - s.index < fuel
    → Ends (tokenize_from fuel program s)
tokenize_from-Ends zero program s h = absurd (omega arith)
tokenize_from-Ends (suc fuel) program s h =
    let one = eat program s in
    rw (tokenize_from_lem fuel program s) (elim (eat-Moves program s) [
      | inl e ↦ rw e ([], one.0, one.1, refl, tt, e)
      | inr ((some_type, long), forward, inside) ↦ rw some_type (
          after_token-Ends one _ (some_type, long)
            (tokenize_from-Ends fuel program (next_start s one.0) (omega arith)))
    ])

-- Whatever the text of a module is, its tokens come to an end: they are read in at most as many rounds
-- as it has characters, and one more; each of them but the last has a text, and only the last is the
-- end of the file.
pub tokenize-Ends :
    (program : List ℕ) (line : ℕ) (module_name : List ℕ) → Ends (tokenize program line module_name)
unfolding tokenize
tokenize-Ends program line module_name =
    tokenize_from-Ends (length program + 1) program
      (record { index = 0; line = line; column = 1; module_name = module_name }) (omega arith)
