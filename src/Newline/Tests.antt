-- ===== src/Newline/Tests.antt =====
-- The unit tests of the script, and the theorems about it at small files.
use commons_operator.Prelude.{
  ◌≡◌, refl, true, false, none, some, List, [], ◌∷◌, ◌++◌, ◌↔◌, Text, codes, all, is_space,
  has_char,
}
use commons_operator.Newline.{
  is_blank, has_trailing_newline, count_blank, complete_last, process_lines, extend, readlines,
  concat, trim,
}
use commons_operator.Newline.Shape.{is_full}
use commons_operator.Newline.Trim.{process_lines_trims, process_lines-eq-none}
use commons_operator.Newline.File.{trim_one_newline, trim_idem}

program : Unit {0}
unfolding is_blank has_trailing_newline count_blank complete_last process_lines extend readlines
    concat trim
program = tt

test_trailing_new_line :
    (has_trailing_newline (codes "something\n") ≡ true)
    × (has_trailing_newline (codes "\n") ≡ true)
    × (has_trailing_newline (codes "nope") ≡ false)
unfolding program
test_trailing_new_line = (refl, refl, refl)

test_trailing_real_line :
    process_lines (codes "bla\n" ∷ codes "useful" ∷ [])
    ≡ some (codes "bla\n" ∷ codes "useful\n" ∷ [] ∷ [])
unfolding program is_space
test_trailing_real_line = refl

abbrev empties : List Text
empties = codes "\n" ∷ codes "  \n" ∷ []

process_lines_trims_example :
    process_lines (codes "bla\n" ∷ codes "useful" ∷ empties)
    ≡ some (codes "bla\n" ∷ codes "useful\n" ∷ [] ∷ [])
unfolding program is_space
process_lines_trims_example =
    process_lines_trims (codes "bla\n" ∷ []) (codes "useful") empties refl refl

process_lines-eq-none_example : (process_lines empties ≡ none) ↔ (all is_blank empties ≡ true)
process_lines-eq-none_example = process_lines-eq-none empties

abbrev readme : Text
readme = codes "# Title\n\ntext\n\n \n"

abbrev trimmed : Text
trimmed = codes "# Title\n\ntext\n"

trim-readme : trim readme ≡ some trimmed
unfolding program is_space
trim-readme = refl

trim_one_newline_example :
    (body : List Text) × (l : Text) × (trimmed ≡ concat body ++ (l ++ 10 ∷ []))
    × (all is_full body ≡ true)
    × (has_char 10 l ≡ false)
    × (is_blank l ≡ false)
trim_one_newline_example = trim_one_newline readme trimmed trim-readme

trim_idem_example : trim trimmed ≡ some trimmed
trim_idem_example = trim_idem readme trimmed trim-readme
