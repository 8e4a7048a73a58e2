-- ===== src/Options/Number/Decimal.antt =====
-- A printed integer is read back by `int`, and is no option of a command line.
use mathlib.Core.List.{reverse-append, reverse-reverse}
use commons_operator.Prelude.{
  ℕ, zero, suc, ◌+◌, ◌-◌, ◌*◌, ◌/◌, ◌%◌, ◌≤◌, ◌<◌, Bool, true, false, some, List, [], ◌∷◌, reverse,
  Text, keep, keep-All, length, is_space, ◌==◌, ltb, All, All-append, inl, inr, ◌≡◌, ◌≢◌, refl,
  arith, ap, sym, ◌∙◌, decimal, digits_from, Bool-cases,
}
use commons_operator.Prelude.Int.{ℤ, pos, negsuc, decimal_ℤ}
use commons_operator.Options.Number.{
  zeros_beyond_ascii, digit_in, digit_of, is_digit, lstrip, strip, read_digits, most_digits,
  read_limited, signed, int_of, fits_number, is_negative_number,
}

abbrev pub IsDigit : ℕ → Type 0
IsDigit c = (48 ≤ c) × (c ≤ 57)

digit_in_first : (zs : List ℕ) (c : ℕ) → IsDigit c → digit_in (48 ∷ zs) c ≡ some (c - 48)
unfolding digit_in
digit_in_first zs c h = ground arith

digit_of_digit : (c : ℕ) → IsDigit c → digit_of c ≡ some (c - 48)
unfolding digit_of
digit_of_digit c h = digit_in_first zeros_beyond_ascii c h

read_digit :
    (b : Bool) (n c : ℕ) (s : Text)
    → IsDigit c
    → read_digits b n (c ∷ s) ≡ read_digits true (n * 10 + (c - 48)) s
unfolding read_digits
read_digit b n c s h = ground (arith, digit_of_digit c h)

read-digits_from :
    (rounds n : ℕ) (out : Text) (b : Bool)
    → n < rounds
    → read_digits b 0 (digits_from rounds n out) ≡ read_digits true n out
read-digits_from zero n out b h = absurd (omega arith)
read-digits_from (suc r) n out b h = elim (Bool-cases (ltb n 10)) [
  | inl small ↦
      rw small (
        read_digit b 0 (48 + n) out (ground arith) ∙ ap (λ m. read_digits true m out) (omega arith))
  | inr large ↦ rw large (
      read-digits_from r (n / 10) ((48 + n % 10) ∷ out) b (ground arith)
      ∙ read_digit true (n / 10) (48 + n % 10) out (omega arith)
      ∙ ap (λ m. read_digits true m out) (omega arith))
]

module _ (P : ℕ → Type 0) (digits : (d : ℕ) → d < 10 → P (48 + d)) where
  digits_from-All : (rounds n : ℕ) (out : Text) → All P out → All P (digits_from rounds n out)
  digits_from-All zero n out h = h
  digits_from-All (suc r) n out h = elim (Bool-cases (ltb n 10)) [
    | inl small ↦ rw small (digits n (ground arith), h)
    | inr large ↦
        rw large
          (digits_from-All r (n / 10) ((48 + n % 10) ∷ out) (digits (n % 10) (omega arith), h))
  ]

pub decimal-IsDigit : (n : ℕ) → All IsDigit (decimal n)
unfolding decimal
decimal-IsDigit n = digits_from-All IsDigit (λ d h. omega arith) (suc n) n [] tt

read-decimal : (n : ℕ) → read_digits false 0 (decimal n) ≡ some n
unfolding decimal read_digits
read-decimal n = read-digits_from (suc n) n [] false (omega arith)

pub decimal-ne-nil : (n : ℕ) → decimal n ≢ []
unfolding read_digits
decimal-ne-nil n e = cc (sym (ap (read_digits false 0) e) ∙ read-decimal n)

-- Text with no space in it is left alone.
abbrev IsPlain : ℕ → Type 0
IsPlain c = is_space c ≡ false

IsDigit-IsPlain : (c : ℕ) → IsDigit c → IsPlain c
unfolding is_space
IsDigit-IsPlain c h = ground arith

All-reverse : (P : ℕ → Type 0) (s : Text) → All P s → All P (reverse s)
All-reverse P [] h = tt
All-reverse P (c ∷ s) h =
    rw (reverse-append (c ∷ []) s)
      (All-append P (reverse s) (c ∷ []) (All-reverse P s h.1) (h.0, tt))

lstrip-plain : (s : Text) → All IsPlain s → lstrip s ≡ s
unfolding lstrip
lstrip-plain [] h = refl
lstrip-plain (c ∷ s) h = ground arith

strip-plain : (s : Text) → All IsPlain s → strip s ≡ s
unfolding strip
strip-plain s h =
    ap (λ t. reverse (lstrip (reverse t))) (lstrip-plain s h)
    ∙ ap reverse (lstrip-plain (reverse s) (All-reverse IsPlain s h))
    ∙ reverse-reverse s

All-map : (P Q : ℕ → Type 0) → ((c : ℕ) → P c → Q c) → (s : Text) → All P s → All Q s
All-map P Q f [] h = tt
All-map P Q f (c ∷ s) h = (f c h.0, All-map P Q f s h.1)

pub is_digit-IsDigit : (c : ℕ) → IsDigit c → is_digit c ≡ true
is_digit-IsDigit c h = ground (arith, digit_of_digit c h)

read_limited-decimal :
    (n : ℕ) → length (decimal n) ≤ most_digits → read_limited (decimal n) ≡ some n
read_limited-decimal n h =
    let kept : keep is_digit (decimal n) ≡ decimal n =
      keep-All is_digit (decimal n) (
        All-map IsDigit (λ c. is_digit c ≡ true) is_digit-IsDigit (decimal n)
          (decimal-IsDigit n)) in
    rw kept (ground (arith, read-decimal n))

signed-digits :
    (s : Text) (n : ℕ) → All IsDigit s → read_limited s ≡ some n → signed s ≡ some (pos n)
unfolding read_digits
signed-digits [] n h e = cc e
signed-digits (c ∷ s) n h e =
    let minus : (c == 45) ≡ false = ground arith in
    let plus : (c == 43) ≡ false = ground arith in rw minus (rw plus (rw e))

signed-negative :
    (s : Text) (n : ℕ) → read_limited s ≡ some (suc n) → signed (45 ∷ s) ≡ some (negsuc n)
signed-negative s n e = rw e

-- `int` reads back what `str` prints, up to its limit of digits.
pub int_of-decimal_ℤ : (i : ℤ) → length (decimal_ℤ i) ≤ most_digits → int_of (decimal_ℤ i) ≡ some i
unfolding int_of
int_of-decimal_ℤ (pos n) h =
    let plain = All-map IsDigit IsPlain IsDigit-IsPlain (decimal n) (decimal-IsDigit n) in
    rw (strip-plain (decimal n) plain)
      (signed-digits (decimal n) n (decimal-IsDigit n) (read_limited-decimal n h))
int_of-decimal_ℤ (negsuc n) h =
    let plain =
      All-map IsDigit IsPlain IsDigit-IsPlain (decimal (suc n)) (decimal-IsDigit (suc n)) in
    rw (strip-plain (45 ∷ decimal (suc n)) (unfold is_space in refl, plain))
      (signed-negative (decimal (suc n)) n (read_limited-decimal (suc n) (omega arith)))

fits_number-digits : (dotted : Bool) (s : Text) → All IsDigit s → fits_number true dotted s ≡ true
fits_number-digits dotted [] h = refl
fits_number-digits dotted (c ∷ s) h = rw (is_digit-IsDigit c h.0) (fits_number-digits dotted s h.1)

pub is_negative_number-digits :
    (d : ℕ) (s : Text) → All IsDigit (d ∷ s) → is_negative_number (45 ∷ d ∷ s) ≡ true
unfolding is_negative_number
is_negative_number-digits d s h =
    let dot : (d == 46) ≡ false = ground arith in
    rw dot (rw (is_digit-IsDigit d h.0) (fits_number-digits false s h.1))
