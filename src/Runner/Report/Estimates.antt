-- ===== src/Runner/Report/Estimates.antt =====
-- `print_runtime_summary` of `ReportGenerator`, which nothing calls.
use commons_operator.Prelude.{
  ℕ, suc, zero, Option, none, some, List, [], ◌∷◌, ◌++◌, Text, codes, length, if◌then◌else◌,
}
use commons_operator.Prelude.Dict.{lookup}
use commons_operator.Float.{Float}
use commons_operator.Runtime.{RuntimeHistory, get_average_runtime, get_runtime_range}
use commons_operator.Manager.{Manager, get_estimated_runtime}
use commons_operator.Executor.Naming.{format_duration}
use commons_operator.Runner.Report.Lines.{rule, decimal_of, no_history_line}

module _ {F : Type 0} ⦃d : Float F⦄ where
  abbrev pub range_text : F × F → Text
  range_text range = format_duration range.0 ++ (codes "-" ++ format_duration range.1)

  abbrev pub history_text : F → RuntimeHistory F → Text
  history_text estimated history =
      codes "    Est: "
      ++ (format_duration estimated
          ++ (codes " | Avg: "
              ++ (format_duration (get_average_runtime history)
                  ++ (codes " | Range: "
                      ++ (range_text (get_runtime_range history)
                          ++ (codes " | Runs: " ++ decimal_of (length history.runtimes)))))))

  -- A test without a history has the estimate 0.
  abbrev pub runtime_lines : Text → F → Option (RuntimeHistory F) → List Text
  runtime_lines test_name estimated none = no_history_line test_name
  runtime_lines test_name estimated (some history) =
      if d.lt (d.of_ℕ 0) estimated
      then (codes "  " ++ test_name) ∷ history_text estimated history ∷ []
      else no_history_line test_name

  -- The loop, with the total and the number of the tests that have a history.
  unfoldable pub runtime_loop : Manager F → List Text → F → ℕ → List Text × F × ℕ
  runtime_loop m [] total count = ([], total, count)
  runtime_loop m (test_name ∷ rest) total count =
      let estimated = get_estimated_runtime test_name m in
      let found = d.lt (d.of_ℕ 0) estimated in
      let (lines, total', count') =
        runtime_loop m rest (if found then d.add total estimated else total)
          (if found then suc count else count) in
      (
        runtime_lines test_name estimated (lookup test_name m.runtime_history) ++ lines,
        total',
        count',
      )

  abbrev pub total_lines : F → ℕ → ℕ → List Text
  total_lines total zero tests = []
  total_lines total (suc count) tests =
      (codes "\nTotal estimated time: " ++ format_duration total)
      ∷ (codes "Tests with history: "
          ++ (decimal_of (suc count) ++ (codes "/" ++ decimal_of tests)))
      ∷ []

  -- The lines that `print_runtime_summary` prints.
  unfoldable pub print_runtime_summary : Manager F → List Text → Text → List Text
  unfolding runtime_loop
  print_runtime_summary m test_names title =
      let (lines, total, count) = runtime_loop m test_names (d.of_ℕ 0) 0 in
      (codes "\n📊 " ++ title)
      ∷ rule 46
      ∷ (lines ++ (total_lines total count (length test_names) ++ [] ∷ []))
