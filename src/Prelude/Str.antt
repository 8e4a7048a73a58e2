-- ===== src/Prelude/Str.antt =====
-- Python's `str` as the list of its code points, with the operations on it that the scripts use.
use Prim.Native.Nat.{ℕ, zero, suc, ◌+◌, ◌/◌, ◌%◌}
use Prim.Native.Char.{code}
use Prim.Native.String.{String}
use mathlib.Core.Path.{◌≡◌, refl}
use mathlib.Core.Logic.{◌↔◌, ◌≢◌, ◌⊎◌, inl, inr}
use mathlib.Core.Option.{Option, none, some}
use mathlib.Core.Bool.{Bool, true, false, ◌&&◌, ◌||◌}
use mathlib.Core.List.{List, [], ◌∷◌, ◌++◌}
use native.Mathlib.Omega.{arith}
use commons_operator.Prelude.Tests.{◌==◌, leb, ltb, if◌then◌else◌, Bool-cases}

abbrev pub Text : Type 0
Text = List ℕ

-- A literal, by its code points.
abbrev pub codes : String → Text
codes String.[] = []
codes (String.◌∷◌ c s) = code c ∷ codes s

unfoldable pub text_eq : Text → Text → Bool
text_eq [] [] = true
text_eq [] (y ∷ ys) = false
text_eq (x ∷ xs) [] = false
text_eq (x ∷ xs) (y ∷ ys) = x == y && text_eq xs ys

pub text_eq_iff : (s t : Text) → (text_eq s t ≡ true) ↔ (s ≡ t)
unfolding text_eq
text_eq_iff [] [] = ground arith
text_eq_iff [] (y ∷ ys) = ground arith
text_eq_iff (x ∷ xs) [] = ground arith
text_eq_iff (x ∷ xs) (y ∷ ys) = ground (arith, text_eq_iff xs ys)

pub text_eq_refl : (s : Text) → text_eq s s ≡ true
text_eq_refl s = (text_eq_iff s s).1 refl

pub text_eq-cases : (s t : Text) → (text_eq s t ≡ true) × (s ≡ t) ⊎ (text_eq s t ≡ false) × (s ≢ t)
text_eq-cases s t = elim (Bool-cases (text_eq s t)) [
  | inl e ↦ inl (e, (text_eq_iff s t).0 e)
  | inr e ↦ inr (e, λ p. ground (arith, (text_eq_iff s t).1 p))
]

-- `c in s`, for one character
abbrev pub has_char : ℕ → Text → Bool
has_char c [] = false
has_char c (d ∷ s) = c == d || has_char c s

-- `s.replace(a, b)`, for single characters
abbrev pub replace_char : ℕ → ℕ → Text → Text
replace_char a b [] = []
replace_char a b (c ∷ s) = (if c == a then b else c) ∷ replace_char a b s

-- What follows the prefix, if the text starts with it.
abbrev pub strip_prefix : Text → Text → Option Text
strip_prefix [] s = some s
strip_prefix (p ∷ ps) [] = none
strip_prefix (p ∷ ps) (c ∷ s) = if p == c then strip_prefix ps s else none

-- `s.startswith(p)`
unfoldable pub starts_with : Text → Text → Bool
starts_with [] s = true
starts_with (p ∷ ps) [] = false
starts_with (p ∷ ps) (c ∷ s) = p == c && starts_with ps s

-- `part in s`
unfoldable pub is_in : Text → Text → Bool
is_in part [] = starts_with part []
is_in part (c ∷ s) = starts_with part (c ∷ s) || is_in part s

-- The longest prefix whose characters pass the test: a greedy `[...]*`.
abbrev pub take_while : (ℕ → Bool) → Text → Text
take_while p [] = []
take_while p (c ∷ s) = if p c then c ∷ take_while p s else []

-- The characters that `\s` matches in a `str` pattern.
unfoldable pub is_space : ℕ → Bool
is_space c =
    (leb 9 c && leb c 13)
    || (leb 28 c && leb c 32)
    || c == 133
    || c == 160
    || c == 5760
    || (leb 8192 c && leb c 8202)
    || c == 8232
    || c == 8233
    || c == 8239
    || c == 8287
    || c == 12288

pub is_space_newline : is_space 10 ≡ true
unfolding is_space
is_space_newline = refl

-- `str(n)`: the rounds put the digits before what is there, and `n + 1` rounds are enough.
abbrev pub digits_from : ℕ → ℕ → Text → Text
digits_from zero n out = out
digits_from (suc rounds) n out =
    let shorter = digits_from rounds (n / 10) ((48 + n % 10) ∷ out) in
    if ltb n 10 then (48 + n) ∷ out else shorter

unfoldable pub decimal : ℕ → Text
decimal n = digits_from (suc n) n []

-- `sep.join(parts)`
abbrev pub join : Text → List Text → Text
join sep [] = []
join sep (x ∷ []) = x
join sep (x ∷ y ∷ rest) = x ++ (sep ++ join sep (y ∷ rest))

module _ (c : ℕ) where
  pub has_char-append : (s t : Text) → has_char c (s ++ t) ≡ (has_char c s || has_char c t)
  has_char-append [] t = refl
  has_char-append (d ∷ s) t = ground (arith, has_char-append s t)

decimal_runs : decimal 1370 ≡ codes "1370"
unfolding decimal
decimal_runs = refl
