-- ===== src/Options/Number.antt =====
-- What `int` reads and which arguments look like negative numbers.
use commons_operator.Prelude.{
  ℕ, zero, suc, ◌+◌, ◌-◌, ◌*◌, Bool, true, false, not, ◌&&◌, Option, none, some, List, [], ◌∷◌,
  reverse, Text, keep, length, is_space, ◌==◌, leb, if◌then◌else◌, ◌≡◌, refl, codes,
}
use commons_operator.Prelude.Int.{ℤ, pos, negsuc}
pub mod Decimal

-- The zeros of the scripts; each is followed by the other nine digits.
abbrev pub zeros_beyond_ascii : List ℕ
zeros_beyond_ascii =
    1632 ∷ 1776 ∷ 1984 ∷ 2406 ∷ 2534 ∷ 2662 ∷ 2790 ∷ 2918 ∷ 3046 ∷ 3174 ∷ 3302 ∷ 3430 ∷ 3558 ∷ 3664
    ∷ 3792 ∷ 3872 ∷ 4160 ∷ 4240 ∷ 6112 ∷ 6160 ∷ 6470 ∷ 6608 ∷ 6784 ∷ 6800 ∷ 6992 ∷ 7088 ∷ 7232
    ∷ 7248 ∷ 42528 ∷ 43216 ∷ 43264 ∷ 43472 ∷ 43504 ∷ 43600 ∷ 44016 ∷ 65296 ∷ 66720 ∷ 68912 ∷ 69734
    ∷ 69872 ∷ 69942 ∷ 70096 ∷ 70384 ∷ 70736 ∷ 70864 ∷ 71248 ∷ 71360 ∷ 71472 ∷ 71904 ∷ 72016 ∷ 72784
    ∷ 73040 ∷ 73120 ∷ 92768 ∷ 92864 ∷ 93008 ∷ 120782 ∷ 120792 ∷ 120802 ∷ 120812 ∷ 120822 ∷ 123200
    ∷ 123632 ∷ 125264 ∷ 130032 ∷ []

abbrev pub zeros : List ℕ
zeros = 48 ∷ zeros_beyond_ascii

unfoldable pub digit_in : List ℕ → ℕ → Option ℕ
digit_in [] c = none
digit_in (z ∷ zs) c = if leb z c && leb c (z + 9) then some (c - z) else digit_in zs c

-- The value of a decimal digit of any script.
unfoldable pub digit_of : ℕ → Option ℕ
unfolding digit_in
digit_of c = digit_in zeros c

abbrev pub is_digit : ℕ → Bool
is_digit c = elim (digit_of c) [ none ↦ false | some d ↦ true ]

unfoldable pub lstrip : Text → Text
lstrip [] = []
lstrip (c ∷ s) = let rest = lstrip s in if is_space c then rest else c ∷ s

-- `s.strip()`
unfoldable pub strip : Text → Text
unfolding lstrip
strip s = reverse (lstrip (reverse (lstrip s)))

abbrev pub negate : ℕ → ℤ
negate zero = pos 0
negate (suc n) = negsuc n

-- Digits with single underscores between them, from the number that was read so far; the flag says
-- that a digit stands before.
unfoldable pub read_digits : Bool → ℕ → Text → Option ℕ
unfolding digit_of
read_digits after n [] = if after then some n else none
read_digits after n (c ∷ s) =
    if c == 95
    then (let rest = read_digits false n s in if after then rest else none)
    else (elim (digit_of c) [ none ↦ none | some d ↦ read_digits true (n * 10 + d) s ])

abbrev pub most_digits : ℕ
most_digits = 4300

abbrev pub read_limited : Text → Option ℕ
read_limited s = if leb (length (keep is_digit s)) most_digits then read_digits false 0 s else none

abbrev pub signed : Text → Option ℤ
signed [] = none
signed (c ∷ s) =
    if c == 45
    then elim (read_limited s) [ none ↦ none | some n ↦ some (negate n) ]
    else elim (read_limited (if c == 43 then s else c ∷ s)) [ none ↦ none | some n ↦ some (pos n) ]

-- `int(s)`, or `none` where it raises a ValueError. It refuses more than 4300 digits.
unfoldable pub int_of : Text → Option ℤ
unfolding strip read_digits digit_of
int_of s = signed (strip s)

-- Digits with single underscores between them, and at most one dot before a digit. The pattern of
-- argparse ends in `$`, which also holds before a last newline.
abbrev pub fits_number : Bool → Bool → Text → Bool
fits_number after dotted [] = after
fits_number after dotted (c ∷ s) =
    let digit = fits_number true dotted s in
    let underscore = fits_number false dotted s in
    let dot = fits_number false true s in
    if is_digit c
    then digit
    else after
      && (if c == 95
          then underscore
          else if c == 46
          then not dotted && dot
          else c == 10 && is_empty s)
  where
    is_empty : Text → Bool
    is_empty [] = true
    is_empty (d ∷ t) = false

unfoldable pub is_negative_number : Text → Bool
unfolding digit_of
is_negative_number [] = false
is_negative_number (c ∷ []) = false
is_negative_number (c ∷ d ∷ s) =
    c == 45 && (if d == 46 then fits_number false true s else fits_number false false (d ∷ s))
