-- ===== src/Runner/Summary.antt =====
-- `create_test_summary` and `process_all_test_results`.
pub mod Status
use commons_operator.Prelude.{
  ℕ, suc, ◌+◌, Bool, true, false, not, ◌&&◌, Option, none, some, List, [], ◌∷◌, ◌++◌, reverse, Text,
  codes, length, text_eq, if◌then◌else◌,
}
use commons_operator.Prelude.Int.{ℤ, pos}
use commons_operator.Prelude.Dict.{Dict, lookup, insert, contains}
use commons_operator.Float.{Float}
use commons_operator.Args.{Args}
use commons_operator.Results.{TestResult, TestSummary, initial, passed, flaky, failed}
use commons_operator.Executor.Command.{given}
use commons_operator.Runner.{Runner}
use commons_operator.Runner.Serial.{any_success, results_for}

abbrev pub log_or_unknown : Option Text → Text
log_or_unknown none = codes "unknown"
log_or_unknown (some log) = log

module _ {F : Type 0} ⦃d : Float F⦄ where
  unfoldable pub final_status_of : TestResult F → List (TestResult F) → Text
  final_status_of initial_result retry_results =
      if initial_result.success then passed else if any_success retry_results then flaky else failed

  -- The loop with its `break`: the first result that has a namespace.
  unfoldable pub first_namespace : List (TestResult F) → Option Text
  first_namespace [] = none
  first_namespace (r ∷ rs) = elim (given r.namespace) [
    | some namespace ↦ some namespace
    | none ↦ first_namespace rs
  ]

  -- The namespace of the last failed attempt that has one, if such namespaces are kept.
  unfoldable pub final_namespace_of : Args → Text → List (TestResult F) → Option Text
  unfolding first_namespace
  final_namespace_of args final_status retry_results =
      if text_eq final_status failed && not args.delete_failed_namespaces
      then first_namespace (reverse retry_results)
      else none

  unfoldable pub summary_for : Args → Text → TestResult F → List (TestResult F) → TestSummary F
  unfolding final_status_of final_namespace_of
  summary_for args test_name initial_result retry_results =
      let final_status = final_status_of initial_result retry_results in
      record {
        test_name = test_name;
        initial_result = initial_result;
        retry_results = retry_results;
        final_status = final_status;
        total_attempts = pos (1 + length retry_results);
        final_namespace = final_namespace_of args final_status retry_results;
      }

  -- The summary goes into the dictionary of the runner.
  unfoldable pub create_test_summary :
      Args → Text → TestResult F → List (TestResult F) → Runner F → Runner F
  unfolding summary_for
  create_test_summary args test_name initial_result retry_results s = record s {
    test_summaries =
        insert test_name (summary_for args test_name initial_result retry_results) s.test_summaries;
  }

  -- The result that stands for the first run of a test: it failed.
  abbrev pub initial_failure : Option Text → Text → TestResult F
  initial_failure initial_result_log test_name = record {
    test_name = test_name;
    attempt = pos 1;
    attempt_type = initial;
    success = false;
    namespace = none;
    duration = d.of_ℕ 0;
    log_file = some (log_or_unknown (given initial_result_log));
    failed_step = none;
  }

  -- The round of the loop for one test; a test that has a summary is left as it is.
  unfoldable pub process_one :
      Args → Dict (List (TestResult F)) → Dict (List (TestResult F)) → Text → Runner F → Runner F
  process_one args parallel_results serial_results test_name s =
      if contains test_name s.test_summaries
      then s
      else create_test_summary args test_name (initial_failure s.initial_result_log test_name)
          (results_for test_name parallel_results ++ results_for test_name serial_results) s

  unfoldable pub process_results :
      Args
      → List Text
      → Dict (List (TestResult F))
      → Dict (List (TestResult F))
      → Runner F
      → Runner F
  unfolding process_one
  process_results args [] parallel_results serial_results s = s
  process_results args (test_name ∷ rest) parallel_results serial_results s =
      process_results args rest parallel_results serial_results
        (process_one args parallel_results serial_results test_name s)

  unfoldable pub process_all_test_results :
      Args → Dict (List (TestResult F)) → Dict (List (TestResult F)) → Runner F → Runner F
  unfolding process_results
  process_all_test_results args parallel_results serial_results s =
      process_results args s.failed_tests parallel_results serial_results s
