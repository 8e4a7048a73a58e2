-- ===== src/Newline/Shape.antt =====
-- The lines that `readlines` gives, and reading them back.
use commons_operator.Prelude.{
  ℕ, ◌≡◌, refl, Bool, true, false, not, ◌&&◌, List, [], ◌∷◌, ◌++◌, arith, Text, ◌==◌, Bool-cases,
  inl, inr,
}
use commons_operator.Newline.{readlines, extend}

-- One newline, at the end.
abbrev pub is_full : Text → Bool
is_full [] = false
is_full (c ∷ []) = c == 10
is_full (c ∷ d ∷ line) = not (c == 10) && is_full (d ∷ line)

-- A full line, or one with characters and no newline.
abbrev pub is_line : Text → Bool
is_line [] = false
is_line (c ∷ []) = true
is_line (c ∷ d ∷ line) = not (c == 10) && is_line (d ∷ line)

-- Full lines, and at the end one that may lack its newline.
abbrev pub are_lines : List Text → Bool
are_lines [] = true
are_lines (line ∷ []) = is_line line
are_lines (line ∷ next ∷ rest) = is_full line && are_lines (next ∷ rest)

extend-are_lines :
    (c : ℕ) (lines : List Text)
    → (c == 10) ≡ false
    → are_lines lines ≡ true
    → are_lines (extend c lines) ≡ true
unfolding extend
extend-are_lines c [] h k = refl
extend-are_lines c ([] ∷ []) h k = ground arith
extend-are_lines c ((d ∷ line) ∷ []) h k = ground arith
extend-are_lines c ([] ∷ next ∷ rest) h k = ground arith
extend-are_lines c ((d ∷ line) ∷ next ∷ rest) h k = ground arith

first-are_lines :
    (c : ℕ) (lines : List Text)
    → (c == 10) ≡ true
    → are_lines lines ≡ true
    → are_lines ((c ∷ []) ∷ lines) ≡ true
first-are_lines c [] h k = refl
first-are_lines c (line ∷ lines) h k = ground arith

pub readlines-are_lines : (s : Text) → are_lines (readlines s) ≡ true
unfolding readlines
readlines-are_lines [] = refl
readlines-are_lines (c ∷ s) = elim (Bool-cases (c == 10)) [
  | inl e ↦ rw e (first-are_lines c (readlines s) e (readlines-are_lines s))
  | inr e ↦ rw e (extend-are_lines c (readlines s) e (readlines-are_lines s))
]

pub readlines_full :
    (line s : Text) → is_full line ≡ true → readlines (line ++ s) ≡ line ∷ readlines s
unfolding readlines extend
readlines_full [] s h = ground arith
readlines_full (c ∷ []) s h = ground arith
readlines_full (c ∷ d ∷ line) s h = ground (arith, readlines_full (d ∷ line) s)
