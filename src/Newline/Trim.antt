-- ===== src/Newline/Trim.antt =====
-- What `process_lines` leaves, and that trimming a file twice is trimming it once.
use mathlib.Core.List.{reverse-cons, reverse-append}
use commons_operator.Prelude.{
  ◌-◌, ◌≡◌, ◌↔◌, refl, sym, ap, ◌∙◌, true, false, none, some, List, [], ◌∷◌, ◌++◌, arith, Text,
  if◌then◌else◌, append_assoc, Bool-cases, inl, inr, all-append, reverse, length, take, all,
  length-append, all-append,
}
use commons_operator.Newline.{
  is_blank, has_trailing_newline, count_blank, complete_last, process_lines,
}

-- The line that is kept last, with its newline.
abbrev pub with_newline : Text → Text
with_newline line = if has_trailing_newline line then line else line ++ 10 ∷ []

all-reverse : (xs : List Text) → all is_blank (reverse xs) ≡ all is_blank xs
all-reverse [] = refl
all-reverse (x ∷ xs) =
    rw reverse-cons (ground (arith, all-append is_blank (reverse xs) (x ∷ []), all-reverse xs))

length-reverse : (xs : List Text) → length (reverse xs) ≡ length xs
length-reverse [] = refl
length-reverse (x ∷ xs) =
    rw reverse-cons (omega (arith, length-append (reverse xs) (x ∷ []), length-reverse xs))

count_blank-append :
    (xs : List Text) (l : Text) (ys : List Text)
    → all is_blank xs ≡ true
    → is_blank l ≡ false
    → count_blank (xs ++ l ∷ ys) ≡ length xs
unfolding count_blank
count_blank-append [] l ys h k = rw k
count_blank-append (x ∷ xs) l ys h k = ground (arith, count_blank-append xs l ys)

count_blank-all : (xs : List Text) → all is_blank xs ≡ true → count_blank xs ≡ length xs
unfolding count_blank
count_blank-all [] h = refl
count_blank-all (x ∷ xs) h = ground (arith, count_blank-all xs)

take-append : (xs ys : List Text) → take (length xs) (xs ++ ys) ≡ xs
take-append [] ys = refl
take-append (x ∷ xs) ys = ap (◌∷◌ x) (take-append xs ys)

complete_last-append :
    (body : List Text) (l : Text)
    → complete_last (body ++ l ∷ []) ≡ some (body ++ with_newline l ∷ [])
unfolding complete_last
complete_last-append [] l = refl
complete_last-append (x ∷ []) l = refl
complete_last-append (x ∷ y ∷ body) l = rw (complete_last-append (y ∷ body) l)

trim_count :
    (body : List Text) (l : Text) (blanks : List Text)
    → is_blank l ≡ false
    → all is_blank blanks ≡ true
    → count_blank (reverse (body ++ l ∷ blanks)) ≡ length blanks
trim_count body l blanks h k =
    rw (reverse-append body (l ∷ blanks), reverse-cons, append_assoc)
      (count_blank-append (reverse blanks) l (reverse body) (all-reverse blanks ∙ k) h
        ∙ length-reverse blanks)

kept :
    (body : List Text) (l : Text) (blanks : List Text)
    → is_blank l ≡ false
    → all is_blank blanks ≡ true
    → take
        (length (body ++ l ∷ blanks) - count_blank (reverse (body ++ l ∷ blanks)))
        (body ++ l ∷ blanks)
      ≡ body ++ l ∷ []
kept body l blanks h k =
    let cutoff : length (body ++ l ∷ blanks) - length blanks ≡ length (body ++ l ∷ []) =
      omega (arith, length-append body (l ∷ blanks), length-append body (l ∷ [])) in
    rw (trim_count body l blanks h k, cutoff)
      (ap (take (length (body ++ l ∷ []))) (sym (append_assoc body (l ∷ []) blanks))
        ∙ take-append (body ++ l ∷ []) blanks)

-- The last line that is not blank, and what stands before and behind it.
pub split_last :
    (lines : List Text)
    → all is_blank lines ≡ false
    → (body : List Text) × (l : Text) × (blanks : List Text) × (lines ≡ body ++ l ∷ blanks)
      × (is_blank l ≡ false)
      × (all is_blank blanks ≡ true)
split_last [] h = cc
split_last (x ∷ xs) h = elim (Bool-cases (all is_blank xs)) [
  | inl e ↦ ([], x, xs, refl, ground arith, e)
  | inr e ↦
      let (body, l, blanks, shape, last, rest) = split_last xs e in
      (x ∷ body, l, blanks, ap (◌∷◌ x) shape, last, rest)
]

process_blanks : (lines : List Text) → all is_blank lines ≡ true → process_lines lines ≡ none
unfolding process_lines complete_last
process_blanks lines h =
    let none_left : length lines - count_blank (reverse lines) ≡ 0 =
      omega
        (arith, count_blank-all (reverse lines) (all-reverse lines ∙ h), length-reverse lines) in
    rw (none_left, process_lines)

-- Lines that end in blank ones after a line that is not: the blank ones go, the line gets a newline
-- if it has none, and an empty text follows, as the last line of the file.
pub process_lines_trims :
    (body : List Text) (l : Text) (blanks : List Text)
    → is_blank l ≡ false
    → all is_blank blanks ≡ true
    → process_lines (body ++ l ∷ blanks) ≡ some (body ++ with_newline l ∷ [] ∷ [])
unfolding process_lines
process_lines_trims body l blanks h k =
    rw (kept body l blanks h k, process_lines)
      (rw (complete_last-append body l, process_lines)
        (ap (λ x. some x) (append_assoc body (with_newline l ∷ []) ([] ∷ []))))

-- `process_lines` raises an IndexError exactly where all lines are blank, no lines at all included.
pub process_lines-eq-none :
    (lines : List Text) → (process_lines lines ≡ none) ↔ (all is_blank lines ≡ true)
process_lines-eq-none lines = (
  λ e. elim (Bool-cases (all is_blank lines)) [
    | inl h ↦ h
    | inr h ↦
        let (body, l, blanks, shape, last, rest) = split_last lines h in
        cc (process_lines_trims body l blanks last rest)
  ],
  process_blanks lines,
)
