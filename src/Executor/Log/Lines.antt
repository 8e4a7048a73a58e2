-- ===== src/Executor/Log/Lines.antt =====
-- The failed tests of a log are those of its lines.
use commons_operator.Prelude.{
  ℕ, zero, suc, ◌+◌, ◌-◌, ◌≤◌, ◌≡◌, refl, sym, ap, ◌∙◌, Bool, true, false, none, some, List, [],
  ◌∷◌, ◌++◌, arith, Text, codes, length, strip_prefix, take_while, is_space, has_char, Option-cases,
  inl, inr, All, all, append_assoc, length-append,
}
use commons_operator.Executor.Log.{
  is_visible, non_empty, group_after, match_at, find_groups, failed_test_literal,
  parse_failed_tests_from_log,
}

module _ (p : ℕ → Bool) (stops : p 10 ≡ false) where
  take_while-append : (s t : Text) → take_while p (s ++ 10 ∷ t) ≡ take_while p s
  take_while-append [] t = rw stops
  take_while-append (c ∷ s) t = ground (arith, take_while-append s t)

  -- A match does not go beyond a newline.
  match_at-append :
      (literal s t : Text)
      → has_char 10 literal ≡ false
      → match_at literal p (s ++ 10 ∷ t) ≡ match_at literal p s
  unfolding match_at
  match_at-append [] s t h = ap non_empty (take_while-append s t)
  match_at-append (l ∷ literal) [] t h = ground arith
  match_at-append (l ∷ literal) (c ∷ s) t h = ground (arith, match_at-append literal s t)

  take_while-le : (s : Text) → length (take_while p s) ≤ length s
  take_while-le [] = omega arith
  take_while-le (c ∷ s) = ground (arith, take_while-le s)

  length-non_empty : (s group : Text) → non_empty s ≡ some group → length group ≡ length s
  length-non_empty [] group e = cc
  length-non_empty (c ∷ s) group e = ground arith

  -- A match lies in the text.
  match_at-le :
      (literal s group : Text)
      → match_at literal p s ≡ some group
      → length literal + length group ≤ length s
  unfolding match_at
  match_at-le [] s group e =
      ground (arith, length-non_empty (take_while p s) group, take_while-le s)
  match_at-le (l ∷ literal) [] group e = cc
  match_at-le (l ∷ literal) (c ∷ s) group e = ground (arith, match_at-le literal s group)

  no_match_at_newline :
      (l : ℕ) (literal t : Text)
      → has_char 10 (l ∷ literal) ≡ false
      → match_at (l ∷ literal) p (10 ∷ t) ≡ none
  unfolding match_at
  no_match_at_newline l literal t h = ground arith

  -- What a text with a newline in it gives is what its two parts give.
  find_groups-append :
      (l : ℕ) (literal : Text) (skip : ℕ) (s t : Text)
      → has_char 10 (l ∷ literal) ≡ false
      → skip ≤ length s
      → find_groups (l ∷ literal) p skip (s ++ 10 ∷ t)
        ≡ find_groups (l ∷ literal) p skip s ++ find_groups (l ∷ literal) p 0 t
  unfolding find_groups
  find_groups-append l literal zero [] t h k = rw (no_match_at_newline l literal t h, find_groups)
  find_groups-append l literal (suc skip) [] t h k = absurd (omega arith)
  find_groups-append l literal (suc skip) (c ∷ s) t h k =
      find_groups-append l literal skip s t h (omega arith)
  find_groups-append l literal zero (c ∷ s) t h k =
      elim (Option-cases (match_at (l ∷ literal) p (c ∷ s))) [
        | inl e ↦
            let same = match_at-append (l ∷ literal) (c ∷ s) t h ∙ e in
            rw (same, find_groups)
              (rw (e, find_groups) (find_groups-append l literal zero s t h (omega arith)))
        | inr (group, e) ↦
            let same = match_at-append (l ∷ literal) (c ∷ s) t h ∙ e in
            let room = match_at-le (l ∷ literal) (c ∷ s) group e in
            rw (same, find_groups)
              (rw (e, find_groups)
                (ap (◌∷◌ group) (
                  find_groups-append l literal (length (l ∷ literal) + length group - 1) s t h
                    (omega (arith, room)))))
      ]

-- A group that stands whole before something that ends it.
module _ (p : ℕ → Bool) where
  take_while_whole :
      (name tail : Text)
      → all p name ≡ true
      → take_while p tail ≡ []
      → take_while p (name ++ tail) ≡ name
  take_while_whole [] tail h k = k
  take_while_whole (c ∷ name) tail h k = ground (arith, take_while_whole name tail)

  strip_prefix-append : (literal s : Text) → strip_prefix literal (literal ++ s) ≡ some s
  strip_prefix-append [] s = refl
  strip_prefix-append (c ∷ literal) s = ground (arith, strip_prefix-append literal s)

  match_at_whole :
      (literal : Text) (c : ℕ) (name tail : Text)
      → all p (c ∷ name) ≡ true
      → take_while p tail ≡ []
      → match_at literal p (literal ++ ((c ∷ name) ++ tail)) ≡ some (c ∷ name)
  unfolding match_at
  match_at_whole literal c name tail h k =
      ap (group_after p) (strip_prefix-append literal ((c ∷ name) ++ tail))
      ∙ ap non_empty (take_while_whole (c ∷ name) tail h k)

  -- Characters that do not begin the literal are passed over.
  find_groups-indent :
      (l : ℕ) (literal indent s : Text)
      → has_char l indent ≡ false
      → find_groups (l ∷ literal) p 0 (indent ++ s) ≡ find_groups (l ∷ literal) p 0 s
  unfolding find_groups match_at
  find_groups-indent l literal [] s h = refl
  find_groups-indent l literal (c ∷ indent) s h =
      ground (arith, find_groups-indent l literal indent s)

  find_groups-skip :
      (literal before s : Text)
      → find_groups literal p (length before) (before ++ s) ≡ find_groups literal p 0 s
  unfolding find_groups
  find_groups-skip literal [] s = refl
  find_groups-skip literal (c ∷ before) s = find_groups-skip literal before s

  find_groups_whole :
      (l : ℕ) (literal : Text) (c : ℕ) (name tail : Text)
      → all p (c ∷ name) ≡ true
      → take_while p tail ≡ []
      → find_groups (l ∷ literal) p 0 ((l ∷ literal) ++ ((c ∷ name) ++ tail))
        ≡ (c ∷ name) ∷ find_groups (l ∷ literal) p 0 tail
  unfolding find_groups
  find_groups_whole l literal c name tail h k =
      let behind : Text = literal ++ ((c ∷ name) ++ tail) in
      let size : length (l ∷ literal) + length (c ∷ name) - 1 ≡ length (literal ++ c ∷ name) =
        omega (arith, length-append literal (c ∷ name)) in
      rw (match_at_whole (l ∷ literal) c name tail h k, find_groups)
        (ap (◌∷◌ (c ∷ name)) (
          ap (λ n. find_groups (l ∷ literal) p n behind) size
          ∙ ap (find_groups (l ∷ literal) p (length (literal ++ c ∷ name)))
              (sym (append_assoc literal (c ∷ name) tail))
          ∙ find_groups-skip (l ∷ literal) (literal ++ c ∷ name) tail))

-- A line of the log: one that reports a failed test, or any other.
pub data Line : Type 0 where
  failure : (indent name tail : Text) → Line
  noise : Text → Line

abbrev pub text_of : Line → Text
text_of (failure indent name tail) = indent ++ (failed_test_literal ++ (name ++ tail))
text_of (noise s) = s

-- The indent has no dash, the name is of visible characters, and the rest of the line reports none.
abbrev pub IsLine : Line → Type 0
IsLine (failure indent [] tail) = ⊥
IsLine (failure indent (c ∷ name) tail) =
    (has_char 45 indent ≡ false)
    × (all is_visible (c ∷ name) ≡ true)
    × (take_while is_visible tail ≡ [])
    × (parse_failed_tests_from_log (some tail) ≡ [])
IsLine (noise s) = parse_failed_tests_from_log (some s) ≡ []

abbrev pub log_of : List Line → Text
log_of [] = []
log_of (line ∷ lines) = text_of line ++ 10 ∷ log_of lines

abbrev pub names_of : List Line → List Text
names_of [] = []
names_of (failure indent name tail ∷ lines) = name ∷ names_of lines
names_of (noise s ∷ lines) = names_of lines

newline_stops : is_visible 10 ≡ false
unfolding is_space
newline_stops = refl

parse_line :
    (line : Line)
    → IsLine line
    → parse_failed_tests_from_log (some (text_of line)) ≡ names_of (line ∷ [])
unfolding parse_failed_tests_from_log
parse_line (noise s) h = h
parse_line (failure indent [] tail) h = absurd h
parse_line (failure indent (c ∷ name) tail) h =
    find_groups-indent is_visible 45 (codes "-- FAIL: kuttl/harness/") indent
      (failed_test_literal ++ ((c ∷ name) ++ tail)) h.0
    ∙ find_groups_whole is_visible 45 (codes "-- FAIL: kuttl/harness/") c name tail h.1 h.2
    ∙ ap (◌∷◌ (c ∷ name)) h.3

names-append :
    (line : Line) (lines : List Line)
    → names_of (line ∷ []) ++ names_of lines ≡ names_of (line ∷ lines)
names-append (failure indent name tail) lines = refl
names-append (noise s) lines = refl

-- The failed tests that are read from a log of such lines are the names that its lines report, in
-- the order of the lines.
pub parse_failed_tests_from_log-log_of :
    (lines : List Line)
    → All IsLine lines
    → parse_failed_tests_from_log (some (log_of lines)) ≡ names_of lines
unfolding parse_failed_tests_from_log
parse_failed_tests_from_log-log_of [] h = refl
parse_failed_tests_from_log-log_of (line ∷ lines) h =
    find_groups-append is_visible newline_stops 45 (codes "-- FAIL: kuttl/harness/") 0
      (text_of line) (log_of lines) refl (omega arith)
    ∙ ap (λ l. l ++ find_groups failed_test_literal is_visible 0 (log_of lines))
        (parse_line line h.0)
    ∙ ap (λ l. names_of (line ∷ []) ++ l) (parse_failed_tests_from_log-log_of lines h.1)
    ∙ names-append line lines
