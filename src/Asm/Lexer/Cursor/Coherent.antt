-- ===== src/Asm/Lexer/Cursor/Coherent.antt =====
-- The invariant of the cursor of assembler/include/tokenizer.hh.
use anc.Base.{
  ℕ, zero, suc, ◌+◌, ◌-◌, ◌≤◌, ◌<◌, ◌≡◌, refl, sym, ap, ◌∙◌, ◌⊎◌, inl, inr, true, false, ◌&&◌,
  Option, some, List, [], ◌∷◌, arith, ltb, leb, ltb→lt, leb→le, if_cases, length, get_elem?,
}
use mathlib.Core.Path.{subst}
use anc.Asm.Lexer.{Lexeme, is_end}
use anc.Asm.Lexer.Cursor.{
  Cursor, nil_behind, placed, with_next, next_token, at_place, set_index, erase,
  remove_current_token, retyped, retype_at, set_current_token,
}
use anc.Asm.Tree.{Token}

-- The token at a place; the end of the file behind the last.
abbrev At : List Lexeme → ℕ → Lexeme → Type 0
At tokens i t = (get_elem? tokens i ≡ some t) ⊎ ((length tokens ≤ i) × (is_end t.token.type ≡ true))

abbrev pub Coherent : Cursor → Type 0
Coherent c = At c.tokens c.i c.current × At c.tokens (c.i + 1) c.next

-- There is a cursor, and it is coherent.
abbrev pub Moved : Option Cursor → Type 0
Moved r = (c : Cursor) × (r ≡ some c) × Coherent c

element : (ts : List Lexeme) (i : ℕ) → i < length ts → (t : Lexeme) × (get_elem? ts i ≡ some t)
element [] i h = absurd (omega arith)
element (t ∷ ts) zero h = (t, refl)
element (t ∷ ts) (suc i) h = element ts i (omega arith)

last_place : (i size : ℕ) → ltb 0 size && leb (size - 1) i ≡ true → size ≤ i + 1
last_place i size h = ground arith

before_last : (i size : ℕ) → 0 < size → ltb 0 size && leb (size - 1) i ≡ false → i + 1 < size
before_last i size g h = ground arith

inside : (size i : ℕ) → leb size i ≡ false → i < size
inside size i h = ground arith

with_next-Moved :
    (c : Cursor) (ts : List Lexeme) (i : ℕ) (t : Lexeme)
    → 0 < length ts
    → At ts i t
    → Moved (with_next c ts i t)
with_next-Moved c ts i t some_token there =
    if_cases Moved (ltb 0 (length ts) && leb (length ts - 1) i)
      (λ h.
        let last = placed c ts i t (nil_behind c.module_name t) in
        (last, refl, (there, inr (last_place i (length ts) h, refl))))
      λ h.
        let (u, e) = element ts (i + 1) (before_last i (length ts) some_token h) in
        rw e (placed c ts i t u, refl, (there, inl e))

at_place-Moved : (c : Cursor) (ts : List Lexeme) (i : ℕ) → Moved (at_place c ts i)
at_place-Moved c ts i =
    if_cases Moved (leb (length ts) i)
      (λ h.
        let behind =
          placed c ts i (nil_behind c.module_name c.current) (nil_behind c.module_name c.next) in
        let far = leb→le (length ts) i h in
        (behind, refl, (inr (far, refl), inr (omega arith, refl))))
      λ h.
        let low = inside (length ts) i h in
        let (t, e) = element ts i low in rw e (with_next-Moved c ts i t (omega arith) (inl e))

length-retype_at :
    (new : Token) (i : ℕ) (ts : List Lexeme) → length (retype_at new i ts) ≡ length ts
length-retype_at new i [] = refl
length-retype_at new zero (t ∷ ts) = refl
length-retype_at new (suc i) (t ∷ ts) = ap suc (length-retype_at new i ts)

retyped_here :
    (new : Token) (i : ℕ) (ts : List Lexeme) (t : Lexeme)
    → get_elem? ts i ≡ some t
    → get_elem? (retype_at new i ts) i ≡ some (retyped new t)
retyped_here new i [] t h = cc
retyped_here new zero (u ∷ ts) t h = cc
retyped_here new (suc i) (u ∷ ts) t h = retyped_here new i ts t h

retyped_behind :
    (new : Token) (i : ℕ) (ts : List Lexeme)
    → get_elem? (retype_at new i ts) (suc i) ≡ get_elem? ts (suc i)
retyped_behind new i [] = refl
retyped_behind new zero (u ∷ ts) = refl
retyped_behind new (suc i) (u ∷ ts) = retyped_behind new i ts

retyped-At :
    (new : Token) (i : ℕ) (ts : List Lexeme) (t : Lexeme)
    → i < length ts
    → At ts i t
    → At (retype_at new i ts) i (retyped new t)
retyped-At new i ts t h (inl e) = inl (retyped_here new i ts t e)
retyped-At new i ts t h (inr (far, ends)) = absurd (omega arith)

behind-At :
    (new : Token) (i : ℕ) (ts : List Lexeme) (t : Lexeme)
    → At ts (suc i) t
    → At (retype_at new i ts) (suc i) t
behind-At new i ts t (inl e) = inl (retyped_behind new i ts ∙ e)
behind-At new i ts t (inr (far, ends)) =
    inr (subst (λ n. n ≤ suc i) (sym (length-retype_at new i ts)) far, ends)

set_current_token-Coherent :
    (new : Token) (c : Cursor) → Coherent c → Coherent (set_current_token new c)
unfolding set_current_token
set_current_token-Coherent new c (here, behind) =
    let next : suc c.i ≡ c.i + 1 = omega arith in
    if_cases Coherent (ltb c.i (length c.tokens))
      (λ h. (
        retyped-At new c.i c.tokens c.current (ltb→lt c.i (length c.tokens) h) here,
        subst (λ n. At (retype_at new c.i c.tokens) n c.next) next
            (behind-At new c.i c.tokens c.next
              (subst (λ n. At c.tokens n c.next) (sym next) behind)),
      ))
      λ _. (here, behind)

-- Each move of the cursor gives a cursor whose current token is the one at its place and whose next is
-- the one behind it, the end of the file where there is none: `next_token` from such a cursor if there
-- is a token, `set_index` to any place, `remove_current_token`, and `set_current_token`.
pub cursor-Coherent :
    (c : Cursor) (index : ℕ) (new : Token)
    → 0 < length c.tokens
    → Coherent c
    → Moved (next_token c)
      × Moved (set_index index c)
      × Moved (remove_current_token c)
      × Coherent (set_current_token new c)
unfolding next_token set_index remove_current_token
cursor-Coherent c index new some_token (here, behind) = (
  with_next-Moved c c.tokens (c.i + 1) c.next some_token behind,
  at_place-Moved c c.tokens index,
  if_cases Moved (ltb c.i (length c.tokens)) (λ _. at_place-Moved c (erase c.i c.tokens) c.i)
      λ _. (c, refl, (here, behind)),
  set_current_token-Coherent new c (here, behind),
)
