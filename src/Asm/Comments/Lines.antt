-- ===== src/Asm/Comments/Lines.antt =====
-- `remove_comments` of assembler/include/tokenizer.hh keeps the lines.
use anc.Asm.Comments.{Scan, kept, remove_comments, remove_from, scan}
use anc.Base.{
  ℕ, ◌+◌, ◌≡◌, refl, ap, ◌∙◌, inl, inr, Bool, true, false, not, ◌&&◌, ◌||◌, List, [], ◌∷◌, arith,
  ◌==◌, if◌then◌else◌, ==_iff, Bool-cases, if_cases,
}

abbrev pub new_lines : List ℕ → ℕ
new_lines [] = 0
new_lines (c ∷ cs) = (if c == 10 then 1 else 0) + new_lines cs

abbrev KeepsLine : ℕ → Scan × Bool → Type 0
KeepsLine ch r = (ch ≡ 10) → r.1 ≡ true

scan-KeepsLine : (s : Scan) (ch : ℕ) → KeepsLine ch (scan s ch)
scan-KeepsLine s ch =
    if_cases (KeepsLine ch) (not (s.open_string == 0)) (λ _ e. refl)
      λ _.
        if_cases (KeepsLine ch) (not s.comment && (ch == 34 || ch == 39)) (λ _ e. refl)
          λ _.
            if_cases (KeepsLine ch) (ch == 59) (λ g e. ground (arith, g, e))
              λ _. if_cases (KeepsLine ch) (ch == 10) (λ _ e. refl) (λ g e. ground (arith, g, e))

new_lines-kept :
    (keep : Bool) (ch : ℕ) (rest : List ℕ)
    → (ch ≡ 10 → keep ≡ true)
    → new_lines (kept keep ch rest) ≡ (if ch == 10 then 1 else 0) + new_lines rest
new_lines-kept true ch rest h = refl
new_lines-kept false ch rest h = elim (Bool-cases (ch == 10)) [
  | inl e ↦ let never = h ((==_iff ch 10).0 e) in cc
  | inr e ↦ rw e (omega arith)
]

new_lines-remove_from :
    (s : Scan) (program : List ℕ) → new_lines (remove_from s program) ≡ new_lines program
unfolding remove_from
new_lines-remove_from s [] = refl
new_lines-remove_from s (ch ∷ rest) =
    let next = scan s ch in
    new_lines-kept next.1 ch (remove_from next.0 rest) (scan-KeepsLine s ch)
    ∙ ap (λ n. (if ch == 10 then 1 else 0) + n) (new_lines-remove_from next.0 rest)

-- Removing the comments leaves the number of line ends as it is, in comments, in strings and outside,
-- so what is behind a comment keeps its line.
pub new_lines-remove_comments :
    (program : List ℕ) → new_lines (remove_comments program) ≡ new_lines program
unfolding remove_comments
new_lines-remove_comments program =
    new_lines-remove_from (record { open_string = 0; escape = false; comment = false }) program
