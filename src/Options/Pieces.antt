-- ===== src/Options/Pieces.antt =====
-- One option with its value, and what its value can be.
use commons_operator.Prelude.{
  ℕ, suc, Bool, true, false, not, ◌&&◌, ◌||◌, Option, none, some, List, [], ◌∷◌, Text, codes, keep,
  all, any, All, starts_with, text_eq, strip_prefix, ◌==◌, leb, ◌≡◌, refl, arith, ap, ◌∙◌, decimal,
  List-cases, subst, inl, inr,
}
use commons_operator.Prelude.Int.{ℤ, pos, negsuc, decimal_ℤ}
use commons_operator.Prelude.Dict.{Dict, lookup}
use commons_operator.Options.Number.Decimal.{
  IsDigit, decimal-IsDigit, decimal-ne-nil, is_negative_number-digits,
}
use commons_operator.Options.{
  Action, sets, takes, Pending, argument, option, parsed, split_eq, classify, of_short, of_split,
  of_dash, abbreviated, of_matches, accept, settle, perform, take_token, step, run, ready, State,
  and_then, exit, finish, parse,
}

-- Whether an option string can start no number.
abbrev pub starts_no_number : Text → Bool
starts_no_number (c ∷ d ∷ s) = not (leb 46 d && leb d 57)
starts_no_number s = true

abbrev pub is_dash : Text → Bool
is_dash [] = false
is_dash (c ∷ s) = c == 45

module _ {N : Type 0} (flags : Dict (Action N)) where
  -- A value that does not start with a dash.
  pub classify-plain : (v : Text) → is_dash v ≡ false → classify flags v ≡ argument
  unfolding classify
  classify-plain [] h = refl
  classify-plain (c ∷ s) h = rw h

  step-takes :
      (flag : Text) (names : N) {read : Text → N → Option N}
      → text_eq flag (codes "--") ≡ false
      → classify flags flag ≡ option (takes read) none
      → step flags (ready names) flag ≡ parsed (record (ready names) { pending = Pending.one read })
  unfolding step take_token settle perform
  step-takes flag names ne e = rw ne (rw e)

  step-value :
      (v : Text) (names : N) (read : Text → N → Option N) {names' : N}
      → text_eq v (codes "--") ≡ false
      → classify flags v ≡ argument
      → read v names ≡ some names'
      → step flags (record (ready names) { pending = Pending.one read }) v ≡ parsed (ready names')
  unfolding step take_token accept
  step-value v names read ne e r = rw ne (rw e (rw r))

  -- An option with its value in the next argument.
  pub run-takes :
      (flag v : Text) (rest : List Text) (names : N) {read : Text → N → Option N} {names' : N}
      → text_eq flag (codes "--") ≡ false
      → classify flags flag ≡ option (takes read) none
      → text_eq v (codes "--") ≡ false
      → classify flags v ≡ argument
      → read v names ≡ some names'
      → run flags (ready names) (flag ∷ v ∷ rest) ≡ run flags (ready names') rest
  unfolding run
  run-takes flag v rest names {read} ne e nev ev r =
      rw (step-takes flag names ne e) (rw (step-value v names read nev ev r))

  pub run-sets :
      (flag : Text) (rest : List Text) (names : N) {f : N → N}
      → text_eq flag (codes "--") ≡ false
      → classify flags flag ≡ option (sets f) none
      → run flags (ready names) (flag ∷ rest) ≡ run flags (ready (f names)) rest
  unfolding run step take_token settle perform
  run-sets flag rest names ne e = rw ne (rw e)

or-true : (b : Bool) → (b || true) ≡ true
or-true true = refl
or-true false = refl

pub no_dash-ne-end : (s : Text) → is_dash s ≡ false → text_eq s (codes "--") ≡ false
unfolding text_eq
no_dash-ne-end [] h = refl
no_dash-ne-end (c ∷ s) h = ground arith

module _ {N : Type 0} (flags : Dict (Action N)) (names : N) where
  abbrev seen : Bool → State N
  seen extras = record (ready names) { extras = extras }

  run-unrecognised :
      (extras : Bool) (vs : List Text)
      → All (λ v. is_dash v ≡ false) vs
      → run flags (seen extras) vs ≡ parsed (seen (any (λ v. true) vs || extras))
  unfolding run step take_token accept
  run-unrecognised extras [] h = refl
  run-unrecognised extras (v ∷ vs) h = rw (no_dash-ne-end v h.0) (
      rw (classify-plain flags v h.0)
        (run-unrecognised true vs h.1 ∙ ap (λ b. parsed (seen b)) (or-true (any (λ v. true) vs))))

  -- Arguments that no option takes are an error.
  pub parse-unrecognised :
      (v : Text) (vs : List Text)
      → All (λ v. is_dash v ≡ false) (v ∷ vs)
      → parse flags names (v ∷ vs) ≡ exit 2
  unfolding parse finish settle
  parse-unrecognised v vs h = ap (λ p. and_then p finish) (run-unrecognised false (v ∷ vs) h)

split_eq-digits : (s : Text) → All IsDigit s → split_eq s ≡ (s, none)
split_eq-digits [] h = refl
split_eq-digits (c ∷ s) h =
    let eq : (c == 61) ≡ false = ground arith in rw eq (rw (split_eq-digits s h.1))

split_eq-negative : (s : Text) → All IsDigit s → split_eq (45 ∷ s) ≡ (45 ∷ s, none)
split_eq-negative s h = rw (split_eq-digits s h)

module _ {N : Type 0} (d : ℕ) (s : Text) (h : All IsDigit (d ∷ s)) where
  lookup-negative :
      (flags : Dict (Action N))
      → all (λ e. starts_no_number e.0) flags ≡ true
      → lookup (45 ∷ d ∷ s) flags ≡ none
  unfolding lookup text_eq
  lookup-negative [] g = refl
  lookup-negative (([], a) ∷ flags) g = lookup-negative flags g
  lookup-negative ((x ∷ [], a) ∷ flags) g = ground (arith, lookup-negative flags)
  lookup-negative ((x ∷ y ∷ f, a) ∷ flags) g = ground (arith, lookup-negative flags)

  matches-negative :
      (flags : Dict (Action N))
      → all (λ e. starts_no_number e.0) flags ≡ true
      → keep (λ e. starts_with (45 ∷ d ∷ s) e.0) flags ≡ []
  unfolding starts_with
  matches-negative [] g = refl
  matches-negative (([], a) ∷ flags) g = matches-negative flags g
  matches-negative ((x ∷ [], a) ∷ flags) g = ground (arith, matches-negative flags)
  matches-negative ((x ∷ y ∷ f, a) ∷ flags) g = ground (arith, matches-negative flags)

  abbreviated-negative :
      (flags : Dict (Action N))
      → all (λ e. starts_no_number e.0) flags ≡ true
      → abbreviated flags (45 ∷ d ∷ s) ≡ argument
  unfolding abbreviated
  abbreviated-negative flags g =
      ap (λ p. of_matches (keep (λ e. starts_with p.0 e.0) flags) p.1 (45 ∷ d ∷ s))
        (split_eq-negative (d ∷ s) h)
      ∙ ap (λ m. of_matches m none (45 ∷ d ∷ s)) (matches-negative flags g)
      ∙ rw (is_negative_number-digits d s h)

  -- A negative number is a value too, where no option starts like one.
  pub classify-negative :
      (flags : Dict (Action N))
      → all (λ e. starts_no_number e.0) flags ≡ true
      → classify flags (45 ∷ d ∷ s) ≡ argument
  unfolding classify text_eq
  classify-negative flags g =
      let short : strip_prefix (codes "-h") (45 ∷ d ∷ s) ≡ none = ground arith in
      ap (λ o. of_dash o flags (45 ∷ d ∷ s)) (lookup-negative flags g)
      ∙ ap (λ p. of_split p flags (45 ∷ d ∷ s)) (split_eq-negative (d ∷ s) h)
      ∙ ap (λ o. of_short o flags (45 ∷ d ∷ s)) short
      ∙ abbreviated-negative flags g

digits_no_dash : (s : Text) → All IsDigit s → is_dash s ≡ false
digits_no_dash [] h = refl
digits_no_dash (c ∷ s) h = ground arith

-- A printed integer is a value, where no option starts like a number.
pub classify-decimal_ℤ :
    {N : Type 0} (flags : Dict (Action N)) (i : ℤ)
    → all (λ e. starts_no_number e.0) flags ≡ true
    → (text_eq (decimal_ℤ i) (codes "--") ≡ false) × (classify flags (decimal_ℤ i) ≡ argument)
unfolding text_eq
classify-decimal_ℤ flags (pos n) g =
    let plain = digits_no_dash (decimal n) (decimal-IsDigit n) in
    (no_dash-ne-end (decimal n) plain, classify-plain flags (decimal n) plain)
classify-decimal_ℤ flags (negsuc n) g = elim (List-cases (decimal (suc n))) [
  | inl e ↦ absurd (decimal-ne-nil (suc n) e)
  | inr (d, s, e) ↦
      let h : All IsDigit (d ∷ s) = subst (All IsDigit) e (decimal-IsDigit (suc n)) in
      rw e (ground arith, classify-negative d s h flags g)
]
