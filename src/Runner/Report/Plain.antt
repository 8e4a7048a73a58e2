-- ===== src/Runner/Report/Plain.antt =====
-- The text report of `ReportGenerator`, by lines.
pub mod Statistics
pub mod Order
pub mod Counts
pub mod Sections
pub mod Listed
use commons_operator.Prelude.{
  ℕ, suc, zero, ◌+◌, ◌-◌, Bool, true, false, not, Option, none, some, List, [], ◌∷◌, ◌++◌, map,
  Text, codes, length, take, drop, keep, text_eq, join, if◌then◌else◌,
}
use commons_operator.Prelude.Int.{decimal_ℤ}
use commons_operator.Prelude.Dict.{Dict, lookup, values}
use commons_operator.Float.{Float}
use commons_operator.Args.{Args}
use commons_operator.World.{World}
use commons_operator.Results.{TestResult, TestSummary, passed, flaky, failed}
use commons_operator.Runtime.{RuntimeHistory, get_average_runtime, average_of, median, range_of}
use commons_operator.Manager.{Manager}
use commons_operator.Executor.Naming.{format_duration}
use commons_operator.Executor.Command.{given}
use commons_operator.Runner.{Runner}
use commons_operator.Runner.Report.Plain.Statistics.{test_averages, all_runtimes, slowest_first}
use commons_operator.Runner.Report.Lines.{
  replicate, rule, decimal_of, or_none, namespace_lines, error_lines, configuration_lines,
  no_history_line,
}

module _ {F : Type 0} where
  -- The summaries of one status.
  unfoldable pub with_status : Text → Dict (TestSummary F) → List (TestSummary F)
  with_status status summaries = keep (λ s. text_eq s.final_status status) (values summaries)

  -- `next((r for r in results if r.success), None)`
  unfoldable pub first_success : List (TestResult F) → Option (TestResult F)
  first_success [] = none
  first_success (r ∷ rs) = if r.success then some r else first_success rs

  -- `results[-1].failed_step`, of no result none.
  unfoldable pub last_failed_step : List (TestResult F) → Option Text
  last_failed_step [] = none
  last_failed_step (r ∷ []) = r.failed_step
  last_failed_step (r ∷ next ∷ rs) = last_failed_step (next ∷ rs)

module _ {F : Type 0} ⦃d : Float F⦄ where
  unfoldable pub success_rate : Dict (TestSummary F) → F
  unfolding with_status
  success_rate summaries =
      d.mul
        (d.ratio (length (with_status passed summaries) + length (with_status flaky summaries))
          (elim (length summaries) [ zero ↦ 1 | suc n ↦ suc n ]))
        (d.of_ℕ 100)

  unfoldable pub summary_lines : World F → Text → Runner F → List Text
  unfolding success_rate
  summary_lines world end_time s =
      replicate 80 61
      ∷ codes "AUTOMATED TEST SUITE REPORT"
      ∷ replicate 46 61
      ∷ (codes "Started: " ++ world.strftime s.start_time)
      ∷ (codes "Ended: " ++ world.strftime end_time)
      ∷ (codes "Total Duration: " ++ world.elapsed s.start_time end_time)
      ∷ []
      ∷ codes "SUMMARY"
      ∷ rule 46
      ∷ (codes "Total Tests: " ++ decimal_of (length s.test_summaries))
      ∷ (codes "Passed: " ++ decimal_of (length (with_status passed s.test_summaries)))
      ∷ (codes "Flaky (eventually passed): "
          ++ decimal_of (length (with_status flaky s.test_summaries)))
      ∷ (codes "Failed: " ++ decimal_of (length (with_status failed s.test_summaries)))
      ∷ (codes "Success Rate: " ++ (d.fixed (success_rate s.test_summaries) ++ codes "%"))
      ∷ []
      ∷ []

  abbrev pub flaky_runtime : TestResult F → Option (RuntimeHistory F) → Text
  flaky_runtime attempt none = codes "    Runtime: " ++ format_duration attempt.duration
  flaky_runtime attempt (some history) =
      codes "    Runtime: "
      ++ (format_duration attempt.duration
          ++ (codes " (avg: " ++ (format_duration (get_average_runtime history) ++ codes ")")))

  -- A flaky test without an attempt that passed, which a state file may hold, has no lines.
  abbrev pub flaky_lines_from : Manager F → TestSummary F → Option (TestResult F) → List Text
  flaky_lines_from m summary none = []
  flaky_lines_from m summary (some attempt) =
      (codes "  ✓ " ++ summary.test_name)
      ∷ (codes "    Passed on attempt "
          ++ (decimal_ℤ attempt.attempt ++ (codes " (" ++ (attempt.attempt_type ++ codes ")"))))
      ∷ (codes "    Total attempts: " ++ decimal_ℤ summary.total_attempts)
      ∷ flaky_runtime attempt (lookup summary.test_name m.runtime_history)
      ∷ []
      ∷ []

  unfoldable pub flaky_lines : Manager F → List (TestSummary F) → List Text
  unfolding first_success
  flaky_lines m [] = []
  flaky_lines m (summary ∷ rest) =
      flaky_lines_from m summary (first_success summary.retry_results) ++ flaky_lines m rest

  unfoldable pub flaky_section : Manager F → List (TestSummary F) → List Text
  unfolding flaky_lines
  flaky_section m [] = []
  flaky_section m (summary ∷ rest) =
      codes "FLAKY TESTS (Failed initially but passed on retry)"
      ∷ rule 60
      ∷ flaky_lines m (summary ∷ rest)

  abbrev pub failed_runtime : Option (RuntimeHistory F) → List Text
  failed_runtime none = []
  failed_runtime (some history) =
      (codes "    Average runtime: "
        ++ (format_duration (get_average_runtime history)
            ++ (codes " (from " ++ (decimal_of (length history.runtimes) ++ codes " runs)"))))
      ∷ []

  unfoldable pub failed_lines : Manager F → List (TestSummary F) → List Text
  unfolding last_failed_step
  failed_lines m [] = []
  failed_lines m (summary ∷ rest) =
      (codes "  ✗ " ++ summary.test_name)
      ∷ (codes "    Total attempts: " ++ decimal_ℤ summary.total_attempts)
      ∷ (namespace_lines (given summary.final_namespace)
          ++ (failed_runtime (lookup summary.test_name m.runtime_history)
              ++ (error_lines (given (last_failed_step summary.retry_results))
                  ++ ([] ∷ failed_lines m rest))))

  unfoldable pub failed_section : Manager F → List (TestSummary F) → List Text
  unfolding failed_lines
  failed_section m [] = []
  failed_section m (summary ∷ rest) =
      codes "FAILED TESTS" ∷ rule 46 ∷ failed_lines m (summary ∷ rest)

  abbrev pub average_line : Text × F → Text
  average_line entry = codes "  " ++ (entry.0 ++ (codes ": " ++ format_duration entry.1))

  abbrev pub overall_lines : Dict (RuntimeHistory F) → List F → List Text
  overall_lines histories [] = []
  overall_lines histories (x ∷ xs) =
      let averages = slowest_first (test_averages histories) in
      (codes "Total test runs recorded: " ++ decimal_of (length (x ∷ xs)))
      ∷ (codes "Overall average runtime: " ++ format_duration (average_of (x ∷ xs)))
      ∷ (codes "Overall median runtime: " ++ format_duration (median (x ∷ xs)))
      ∷ (codes "Fastest test run: " ++ format_duration (range_of (x ∷ xs)).0)
      ∷ (codes "Slowest test run: " ++ format_duration (range_of (x ∷ xs)).1)
      ∷ []
      ∷ codes "Slowest tests (by average):"
      ∷ (map average_line (take 3 averages)
          ++ ([]
              ∷ codes "Fastest tests (by average):"
              ∷ map average_line (drop (length averages - 3) averages)))

  -- `_add_runtime_statistics_to_report`
  unfoldable pub runtime_statistics : Dict (RuntimeHistory F) → List Text
  runtime_statistics [] = []
  runtime_statistics (entry ∷ histories) =
      codes "RUNTIME STATISTICS"
      ∷ rule 46
      ∷ (overall_lines (entry ∷ histories) (all_runtimes (entry ∷ histories)) ++ [] ∷ [])

  unfoldable pub report_lines : World F → Args → Runner F → List Text
  unfolding summary_lines flaky_section failed_section runtime_statistics
  report_lines world args s =
      let end_time = (world.response s.shell.calls).now in
      let m = s.shell.manager in
      summary_lines world end_time s
      ++ (flaky_section m (with_status flaky s.test_summaries)
          ++ (failed_section m (with_status failed s.test_summaries)
              ++ (runtime_statistics m.runtime_history ++ configuration_lines args)))

  unfoldable pub generate_comprehensive_report : World F → Args → Runner F → Text
  unfolding report_lines
  generate_comprehensive_report world args s = join (codes "\n") (report_lines world args s)
