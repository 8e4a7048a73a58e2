-- ===== src/Executor/Naming/Safety.antt =====
-- The name of a log file is the name of one file: it has no slash, and its length is bounded.
use commons_operator.Prelude.{
  ℕ, zero, suc, ◌+◌, ◌/◌, ◌%◌, ◌≤◌, ◌≡◌, refl, sym, ap, ◌∙◌, false, [], ◌∷◌, ◌++◌, arith, Text,
  codes, length, take, has_char, has_char-append, replace_char, decimal, digits_from, ltb, ◌==◌,
  if◌then◌else◌, length-append, length-take-le, Bool-cases, inl, inr,
}
use commons_operator.Prelude.Int.{ℤ, pos, negsuc, decimal_ℤ}
use commons_operator.Executor.Naming.{max_test_name_length, safe_log_stem, create_safe_log_filename}

replaced : (s : Text) → has_char 47 (replace_char 47 95 s) ≡ false
replaced [] = refl
replaced (c ∷ s) = ground (arith, replaced s)

has_char-take : (c n : ℕ) (s : Text) → has_char c s ≡ false → has_char c (take n s) ≡ false
has_char-take c zero s h = refl
has_char-take c (suc n) [] h = refl
has_char-take c (suc n) (x ∷ s) h = ground (arith, has_char-take c n s)

digits_from_safe :
    (rounds n : ℕ) (out : Text)
    → has_char 47 out ≡ false
    → has_char 47 (digits_from rounds n out) ≡ false
digits_from_safe zero n out h = h
digits_from_safe (suc rounds) n out h =
    ground (arith, digits_from_safe rounds (n / 10) ((48 + n % 10) ∷ out))

decimal_ℤ_safe : (n : ℤ) → has_char 47 (decimal_ℤ n) ≡ false
unfolding decimal
decimal_ℤ_safe (pos n) = digits_from_safe (suc n) n [] refl
decimal_ℤ_safe (negsuc n) = digits_from_safe (suc (suc n)) (suc n) [] refl

-- No slash in the parts is none in the whole.
append_safe :
    (s t : Text) → has_char 47 s ≡ false → has_char 47 t ≡ false → has_char 47 (s ++ t) ≡ false
append_safe s t h k = ground (arith, has_char-append 47 s t)

module _ (md5 : Text → Text) (hex : (s : Text) → has_char 47 (md5 s) ≡ false) where
  stem_safe : (test_name : Text) → has_char 47 (safe_log_stem md5 test_name) ≡ false
  unfolding safe_log_stem
  stem_safe test_name =
      let safe = replace_char 47 95 test_name in
      elim (Bool-cases (ltb max_test_name_length (length safe))) [
        | inl e ↦ rw e (
            append_safe (take 91 safe) (95 ∷ take 8 (md5 test_name))
              (has_char-take 47 91 safe (replaced test_name))
              (has_char-take 47 8 (md5 test_name) (hex test_name)))
        | inr e ↦ rw e (replaced test_name)
      ]

  stem-le : (test_name : Text) → length (safe_log_stem md5 test_name) ≤ max_test_name_length
  unfolding safe_log_stem
  stem-le test_name =
      let safe = replace_char 47 95 test_name in
      elim (Bool-cases (ltb max_test_name_length (length safe))) [
        | inl e ↦ rw e (
            omega (
              arith,
              length-append (take 91 safe) (95 ∷ take 8 (md5 test_name)),
              length-take-le 91 safe,
              length-take-le 8 (md5 test_name),
            ))
        | inr e ↦ rw e (ground arith)
      ]

  -- Where neither the hash nor the attempt type has a slash: the name of the log file of any test,
  -- however the test is named, has none, and its length is bounded.
  pub create_safe_log_filename_lem :
      (test_name : Text) (attempt : ℤ) (attempt_type : Text)
      → has_char 47 attempt_type ≡ false
      → (has_char 47 (create_safe_log_filename md5 test_name attempt attempt_type) ≡ false)
        × (length (create_safe_log_filename md5 test_name attempt attempt_type)
            ≤ max_test_name_length + 14 + length (decimal_ℤ attempt) + length attempt_type)
  unfolding create_safe_log_filename
  create_safe_log_filename_lem test_name attempt attempt_type h =
      let stem = safe_log_stem md5 test_name in
      let number = decimal_ℤ attempt in
      let ending = attempt_type ++ codes ".txt" in
      (
        append_safe stem (codes "_attempt_" ++ (number ++ (95 ∷ ending))) (stem_safe test_name) (
            append_safe number (95 ∷ ending) (decimal_ℤ_safe attempt)
              (append_safe attempt_type (codes ".txt") h refl)),
        omega (
          arith,
          stem-le test_name,
          length-append stem (codes "_attempt_" ++ (number ++ (95 ∷ ending))),
          length-append number (95 ∷ ending),
          length-append attempt_type (codes ".txt"),
        ),
      )

length-replace_char : (s : Text) → length (replace_char 47 95 s) ≡ length s
length-replace_char [] = refl
length-replace_char (c ∷ s) = ap suc (length-replace_char s)

same_replaced : (s t : Text) → replace_char 47 95 (s ++ 47 ∷ t) ≡ replace_char 47 95 (s ++ 95 ∷ t)
same_replaced [] t = refl
same_replaced (c ∷ s) t = ap (◌∷◌ (if c == 47 then 95 else c)) (same_replaced s t)

same_length : (s t : Text) → length (s ++ 47 ∷ t) ≡ length (s ++ 95 ∷ t)
same_length [] t = refl
same_length (c ∷ s) t = ap suc (same_length s t)

module _ (md5 : Text → Text) where
  short_stem :
      (name : Text)
      → length name ≤ max_test_name_length
      → safe_log_stem md5 name ≡ replace_char 47 95 name
  unfolding safe_log_stem
  short_stem name h =
      let short : ltb max_test_name_length (length (replace_char 47 95 name)) ≡ false =
        ground (arith, length-replace_char name) in
      rw short

  -- Two names of at most 100 characters that differ in a slash and an underscore have one log file: the log of the one
  -- test overwrites the log of the other.
  pub create_safe_log_filename_clash :
      (s t : Text) (attempt : ℤ) (attempt_type : Text)
      → length (s ++ 47 ∷ t) ≤ max_test_name_length
      → create_safe_log_filename md5 (s ++ 47 ∷ t) attempt attempt_type
        ≡ create_safe_log_filename md5 (s ++ 95 ∷ t) attempt attempt_type
  unfolding create_safe_log_filename
  create_safe_log_filename_clash s t attempt attempt_type h =
      ap
        (λ stem.
          stem
          ++ (codes "_attempt_" ++ (decimal_ℤ attempt ++ (95 ∷ (attempt_type ++ codes ".txt")))))
        (short_stem (s ++ 47 ∷ t) h
          ∙ same_replaced s t
          ∙ sym (short_stem (s ++ 95 ∷ t) (omega (arith, same_length s t))))
