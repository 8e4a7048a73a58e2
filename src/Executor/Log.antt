-- ===== src/Executor/Log.antt =====
-- What `TestExecutor` finds in the log of a run: the patterns of `TestConstants`, each a literal and
-- a greedy group of one kind of character behind it.
pub mod Lines
use commons_operator.Prelude.{
  ℕ, zero, suc, ◌+◌, ◌-◌, Bool, true, false, not, ◌||◌, Option, none, some, List, [], ◌∷◌, ◌++◌,
  Text, codes, length, strip_prefix, take_while, is_space, ◌==◌,
}

-- `[^\s]`
abbrev pub is_visible : ℕ → Bool
is_visible c = not (is_space c)

abbrev pub non_empty : Text → Option Text
non_empty [] = none
non_empty (c ∷ s) = some (c ∷ s)

-- `literal([class]+)`, matched at the beginning of a text: the group.
abbrev pub group_after : (ℕ → Bool) → Option Text → Option Text
group_after p none = none
group_after p (some rest) = non_empty (take_while p rest)

unfoldable pub match_at : Text → (ℕ → Bool) → Text → Option Text
match_at literal p s = group_after p (strip_prefix literal s)

-- `re.search`: the group of the first match.
unfoldable pub search_group : Text → (ℕ → Bool) → Text → Option Text
search_group literal p [] = none
search_group literal p (c ∷ s) = elim (match_at literal p (c ∷ s)) [
  | some group ↦ some group
  | none ↦ search_group literal p s
]

-- `re.findall`: the groups of all matches. The number counts what is left of the match before.
unfoldable pub find_groups : Text → (ℕ → Bool) → ℕ → Text → List Text
find_groups literal p skip [] = []
find_groups literal p (suc skip) (c ∷ s) = find_groups literal p skip s
find_groups literal p zero (c ∷ s) = elim (match_at literal p (c ∷ s)) [
  | some group ↦ group ∷ find_groups literal p (length literal + length group - 1) s
  | none ↦ find_groups literal p zero s
]

-- `TestConstants.NAMESPACE_PATTERN`: its group begins with the prefix of the namespaces.
abbrev pub namespace_prefix : Text
namespace_prefix = codes "kuttl-test-"

abbrev pub namespace_literal : Text
namespace_literal = codes "Creating namespace: kuttl-test-"

-- `TestConstants.FAILED_TEST_PATTERN`
abbrev pub failed_test_literal : Text
failed_test_literal = codes "--- FAIL: kuttl/harness/"

abbrev pub failed_step_literal : Text
failed_step_literal = codes "failed in step "

-- The log as it is read: `none` where opening or decoding it raises.
unfoldable pub extract_test_namespace_from_log_file : Option Text → Option Text
extract_test_namespace_from_log_file none = none
extract_test_namespace_from_log_file (some content) =
    elim (search_group namespace_literal is_visible content) [
      | some rest ↦ some (namespace_prefix ++ rest)
      | none ↦ none
    ]

-- `is_word` is `\w` without the hyphen that the class adds.
unfoldable pub extract_failed_step : (ℕ → Bool) → Option Text → Text
extract_failed_step is_word none = codes "Could not find failed step"
extract_failed_step is_word (some content) =
    elim (search_group failed_step_literal (λ c. is_word c || c == 45) content) [
      | some step ↦ failed_step_literal ++ step
      | none ↦ codes "Could not find failed step"
    ]

unfoldable pub parse_failed_tests_from_log : Option Text → List Text
unfolding find_groups match_at
parse_failed_tests_from_log none = []
parse_failed_tests_from_log (some content) = find_groups failed_test_literal is_visible 0 content
