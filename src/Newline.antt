-- ===== src/Newline.antt =====
-- scripts/ensure_one_trailing_newline.py: trim the blank lines at the end of a file and leave one
-- newline. A line is a text that ends with its newline, as `readlines` gives it.
pub mod Shape
pub mod Trim
pub mod File
mod Tests
use commons_operator.Prelude.{
  ℕ, zero, suc, ◌+◌, ◌-◌, Bool, true, false, Option, none, some, List, [], ◌∷◌, ◌++◌, reverse, Text,
  length, take, all, is_space, ◌==◌, if◌then◌else◌,
}

-- `re.match(r"^\s*$", line)`: the `$` holds at the end and before a last newline, which is a space
-- too, so the pattern fits exactly the lines of spaces.
pub is_blank : Text → Bool
is_blank line = all is_space line

-- `line[-1:] == "\n"`
unfoldable pub has_trailing_newline : Text → Bool
has_trailing_newline [] = false
has_trailing_newline (c ∷ []) = c == 10
has_trailing_newline (c ∷ d ∷ line) = has_trailing_newline (d ∷ line)

-- The loop over the reversed lines, with its `break`.
pub count_blank : List Text → ℕ
count_blank [] = 0
count_blank (line ∷ rest) = let more = count_blank rest in if is_blank line then suc more else 0

-- The last two statements but one: complete the last line. There is none in an empty list, where
-- `new_lines[-1]` raises an IndexError, which is `none`.
pub complete_last : List Text → Option (List Text)
complete_last [] = none
complete_last (line ∷ []) =
    some ((if has_trailing_newline line then line else line ++ 10 ∷ []) ∷ [])
complete_last (line ∷ next ∷ rest) = elim (complete_last (next ∷ rest)) [
  | none ↦ none
  | some lines ↦ some (line ∷ lines)
]

pub process_lines : List Text → Option (List Text)
process_lines lines =
    let trim_count = count_blank (reverse lines) in
    let cutoff_index = length lines - trim_count in
    elim (complete_last (take cutoff_index lines)) [
      | none ↦ none
      | some new_lines ↦ some (new_lines ++ [] ∷ [])
    ]

unfoldable pub extend : ℕ → List Text → List Text
extend c [] = (c ∷ []) ∷ []
extend c (line ∷ lines) = (c ∷ line) ∷ lines

-- `f.readlines()`
unfoldable pub readlines : Text → List Text
unfolding extend
readlines [] = []
readlines (c ∷ s) = if c == 10 then (c ∷ []) ∷ readlines s else extend c (readlines s)

-- `"".join(lines)`
unfoldable pub concat : List Text → Text
concat [] = []
concat (line ∷ lines) = line ++ concat lines

-- The script: what is written back to the file, or `none` where it stops before it writes.
pub trim : Text → Option Text
trim content = elim (process_lines (readlines content)) [ none ↦ none | some ls ↦ some (concat ls) ]
