-- ===== src/Executor/Naming.antt =====
-- The names that `TestExecutor` makes of a test: for the screen, for the log file and for the work
-- directory; and its durations.
pub mod Safety
use commons_operator.Prelude.{
  ℕ, zero, suc, ◌+◌, ◌-◌, Bool, true, false, Option, none, some, List, [], ◌∷◌, ◌++◌, Text, codes,
  length, take, has_char, replace_char, decimal, ltb, leb, ◌==◌, if◌then◌else◌,
}
use commons_operator.Prelude.Int.{ℤ, decimal_ℤ}
use commons_operator.Float.{Float}

-- `TestConstants.MAX_TEST_NAME_LENGTH` and `TestConstants.HASH_SUFFIX_LENGTH`
abbrev pub max_test_name_length : ℕ
max_test_name_length = 100

abbrev pub hash_suffix_length : ℕ
hash_suffix_length = 8

-- `format_duration`, of the executor and of the report generator.
unfoldable pub format_duration : {F : Type 0} ⦃d : Float F⦄ → F → Text
format_duration ⦃d⦄ seconds =
    if d.lt seconds (d.of_ℕ 60)
    then d.fixed seconds ++ codes "s"
    else if d.lt seconds (d.of_ℕ 3600)
    then d.fixed (d.div seconds (d.of_ℕ 60)) ++ codes "m"
    else d.fixed (d.div seconds (d.of_ℕ 3600)) ++ codes "h"

abbrev extend_first : ℕ → List Text → List Text
extend_first c [] = (c ∷ []) ∷ []
extend_first c (part ∷ parts) = (c ∷ part) ∷ parts

-- `s.split(c)`
unfoldable pub split : ℕ → Text → List Text
split c [] = [] ∷ []
split c (x ∷ s) = if x == c then [] ∷ split c s else extend_first x (split c s)

abbrev pub last_or : Text → List Text → Text
last_or default [] = default
last_or default (part ∷ parts) = last_or part parts

-- The test on the number of parts, on the parts.
abbrev pub first_and_last : List Text → Option Text
first_and_last (first ∷ second ∷ third ∷ rest) = some (first ++ (codes "..." ++ last_or third rest))
first_and_last _ = none

abbrev pub max_shown : ℕ
max_shown = 60

abbrev pub cut : Text → Text
cut test_name = take (max_shown - 3) test_name ++ codes "..."

-- With the default of `max_length`, 60, which each caller takes.
unfoldable pub shorten_test_name : Text → Text
unfolding split
shorten_test_name test_name =
    if leb (length test_name) max_shown
    then test_name
    else if has_char 44 test_name
    then elim (first_and_last (split 44 test_name)) [ some short ↦ short | none ↦ cut test_name ]
    else cut test_name

-- `md5` is `hashlib.md5(name.encode()).hexdigest()`.
unfoldable pub safe_log_stem : (Text → Text) → Text → Text
safe_log_stem md5 test_name =
    let safe_test_name = replace_char 47 95 test_name in
    if ltb max_test_name_length (length safe_test_name)
    then take (max_test_name_length - 9) safe_test_name
      ++ (95 ∷ take hash_suffix_length (md5 test_name))
    else safe_test_name

unfoldable pub create_safe_log_filename : (Text → Text) → Text → ℤ → Text → Text
unfolding safe_log_stem
create_safe_log_filename md5 test_name attempt attempt_type =
    safe_log_stem md5 test_name
    ++ (codes "_attempt_" ++ (decimal_ℤ attempt ++ (95 ∷ (attempt_type ++ codes ".txt"))))

-- The work directory of a run of one test, and that of the full suite.
unfoldable pub work_dir_of : Option Text → ℤ → Text → Text → Text
work_dir_of (some test_name) attempt attempt_type timestamp =
    codes "tests/_work_"
    ++ (replace_char 44 95 (replace_char 47 95 test_name)
        ++ (95 ∷ (decimal_ℤ attempt ++ (95 ∷ (attempt_type ++ (95 ∷ timestamp))))))
work_dir_of none attempt attempt_type timestamp =
    codes "tests/_work_full_suite_"
    ++ (decimal_ℤ attempt ++ (95 ∷ (attempt_type ++ (95 ∷ timestamp))))
