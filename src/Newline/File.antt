-- ===== src/Newline/File.antt =====
-- Trimming a whole file: the shape of what is written, and trimming it again.
use commons_operator.Prelude.{
  ◌≡◌, refl, sym, ap, ◌∙◌, true, false, some, List, [], ◌∷◌, ◌++◌, arith, Text, ◌==◌, append_assoc,
  append-nil, Bool-cases, inl, inr, all, is_space, is_space_newline, has_char, ==_iff, all-append,
}
use commons_operator.Newline.{is_blank, has_trailing_newline, readlines, concat, trim}
use commons_operator.Newline.Shape.{
  is_full, is_line, are_lines, readlines-are_lines, readlines_full,
}
use commons_operator.Newline.Trim.{
  with_newline, split_last, process_lines_trims, process_lines-eq-none,
}

is_line_of_full : (l : Text) → is_full l ≡ true → is_line l ≡ true
is_line_of_full [] h = ground arith
is_line_of_full (c ∷ []) h = refl
is_line_of_full (c ∷ d ∷ l) h = ground (arith, is_line_of_full (d ∷ l))

-- Of the lines of a file all but the last are full, and the last is with its newline.
full_or_last :
    (body : List Text) (l : Text) (blanks : List Text)
    → are_lines (body ++ l ∷ blanks) ≡ true
    → (all is_full body ≡ true) × (is_line l ≡ true)
full_or_last [] l [] h = (refl, h)
full_or_last [] l (b ∷ blanks) h = (refl, is_line_of_full l (ground arith))
full_or_last (x ∷ []) l blanks h = ground (arith, full_or_last [] l blanks)
full_or_last (x ∷ y ∷ body) l blanks h = ground (arith, full_or_last (y ∷ body) l blanks)

-- The kept line is a text with no newline in it, and then one newline.
with_newline_parts :
    (l : Text)
    → is_line l ≡ true
    → (s : Text) × (with_newline l ≡ s ++ 10 ∷ [])
      × (has_char 10 s ≡ false)
      × (is_blank s ≡ is_blank l)
unfolding has_trailing_newline is_blank
with_newline_parts [] h = cc
with_newline_parts (c ∷ []) h = elim (Bool-cases (c == 10)) [
  | inl e ↦
      let here : c ≡ 10 = (==_iff c 10).0 e in
      ([], ground arith, refl, rw here (ground (arith, is_space_newline)))
  | inr e ↦ (c ∷ [], rw e, ground arith, refl)
]
with_newline_parts (c ∷ d ∷ l) h =
    let (s, whole, none_in, same) = with_newline_parts (d ∷ l) (ground arith) in
    (c ∷ s, ground arith, ground arith, ground arith)

with_newline-is_full : (l : Text) → is_line l ≡ true → is_full (with_newline l) ≡ true
unfolding has_trailing_newline
with_newline-is_full [] h = cc
with_newline-is_full (c ∷ []) h = ground arith
with_newline-is_full (c ∷ d ∷ l) h = ground (arith, with_newline-is_full (d ∷ l))

with_newline_idem : (l : Text) → with_newline (with_newline l) ≡ with_newline l
unfolding has_trailing_newline
with_newline_idem [] = refl
with_newline_idem (c ∷ []) = ground arith
with_newline_idem (c ∷ d ∷ l) = ground (arith, with_newline_idem (d ∷ l))

with_newline-is_blank : (l : Text) → is_line l ≡ true → is_blank (with_newline l) ≡ is_blank l
unfolding is_blank
with_newline-is_blank l h =
    let (s, whole, none_in, same) = with_newline_parts l h in
    rw (whole, all-append is_space s (10 ∷ []), is_space_newline) (ground arith)

readlines-concat : (ls : List Text) → all is_full ls ≡ true → readlines (concat ls) ≡ ls
unfolding concat readlines
readlines-concat [] h = refl
readlines-concat (l ∷ ls) h =
    readlines_full l (concat ls) (ground arith) ∙ ap (◌∷◌ l) (readlines-concat ls (ground arith))

concat-snoc : (ls : List Text) → concat (ls ++ [] ∷ []) ≡ concat ls
unfolding concat
concat-snoc [] = refl
concat-snoc (l ∷ ls) = ap (λ t. l ++ t) (concat-snoc ls)

concat_kept : (body : List Text) (l : Text) → concat (body ++ l ∷ [] ∷ []) ≡ concat body ++ l
unfolding concat
concat_kept [] l = append-nil l
concat_kept (x ∷ body) l =
    ap (λ t. x ++ t) (concat_kept body l) ∙ sym (append_assoc x (concat body) l)

trim_kept :
    (content : Text) (body : List Text) (l : Text) (blanks : List Text)
    → readlines content ≡ body ++ l ∷ blanks
    → is_blank l ≡ false
    → all is_blank blanks ≡ true
    → trim content ≡ some (concat body ++ with_newline l)
unfolding trim
trim_kept content body l blanks e h k =
    rw (e, trim)
      (rw (process_lines_trims body l blanks h k, trim)
        (ap (λ t. some t) (concat_kept body (with_newline l))))

-- The lines of a file that is trimmed, and what is written.
record Trimmed (content out : Text) : Type 0 where
  body : List Text
  last : Text
  full : all is_full body ≡ true
  line : is_line last ≡ true
  kept : is_blank last ≡ false
  written : out ≡ concat body ++ with_newline last

Trimmed-of_trim : (content out : Text) → trim content ≡ some out → Trimmed content out
unfolding trim
Trimmed-of_trim content out h = elim (Bool-cases (all is_blank (readlines content))) [
  | inl e ↦ cc ((process_lines-eq-none (readlines content)).1 e)
  | inr e ↦
      let (body, l, blanks, shape, kept, rest) = split_last (readlines content) e in
      let (full, line) = full_or_last body l blanks (rw shape at (readlines-are_lines content)) in
      record {
        body = body;
        last = l;
        full = full;
        line = line;
        kept = kept;
        written = cc (trim_kept content body l blanks shape kept rest);
      }
]

readlines_written :
    (body : List Text) (l : Text)
    → all is_full body ≡ true
    → is_full l ≡ true
    → readlines (concat body ++ l) ≡ body ++ l ∷ []
unfolding readlines concat
readlines_written [] l h k =
    ap readlines (sym (append-nil l)) ∙ readlines_full l [] k ∙ ap (◌∷◌ l) refl
readlines_written (x ∷ body) l h k =
    ap readlines (append_assoc x (concat body) l)
    ∙ readlines_full x (concat body ++ l) (ground arith)
    ∙ ap (◌∷◌ x) (readlines_written body l (ground arith) k)

-- Trimming a file that was trimmed changes nothing.
pub trim_idem : (content out : Text) → trim content ≡ some out → trim out ≡ some out
trim_idem content out h =
    let t = Trimmed-of_trim content out h in
    let lines =
      readlines_written t.body (with_newline t.last) t.full (with_newline-is_full t.last t.line) in
    let again =
      trim_kept out t.body (with_newline t.last) [] (ap readlines t.written ∙ lines)
        (with_newline-is_blank t.last t.line ∙ t.kept) refl in
    cc (again, t.written, with_newline_idem t.last)

-- What trimming writes is some full lines and one last line, which is not blank, with one newline at
-- its end.
pub trim_one_newline :
    (content out : Text)
    → trim content ≡ some out
    → (body : List Text) × (l : Text) × (out ≡ concat body ++ (l ++ 10 ∷ []))
      × (all is_full body ≡ true)
      × (has_char 10 l ≡ false)
      × (is_blank l ≡ false)
trim_one_newline content out h =
    let t = Trimmed-of_trim content out h in
    let (s, whole, none_in, same) = with_newline_parts t.last t.line in
    (t.body, s, t.written ∙ ap (λ l. concat t.body ++ l) whole, t.full, none_in, same ∙ t.kept)
