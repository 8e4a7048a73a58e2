-- ===== src/Tests/Reports.antt =====
-- Logs, results and the end of a run.
use commons_operator.Prelude.{
  ◌≡◌, refl, zero, suc, ◌≤◌, ◌+◌, ℕ, false, none, some, List, [], ◌∷◌, ◌++◌, arith, codes, length,
  All, all, has_char, is_space, text_eq, any,
}
use commons_operator.Prelude.Int.{pos, decimal_ℤ, is_zero}
use commons_operator.Prelude.Dict.{Dict, lookup, insert}
use commons_operator.Exec.{ok, Returns}
use commons_operator.Args.{default_args}
use commons_operator.Results.{TestResult, serial, result_dict, result_of}
use commons_operator.Results.RoundTrip.{result_of-result_dict}
use commons_operator.Executor.Log.{parse_failed_tests_from_log, find_groups, match_at}
use commons_operator.Executor.Log.Lines.{
  Line, failure, noise, IsLine, log_of, parse_failed_tests_from_log-log_of,
}
use commons_operator.Executor.Naming.{work_dir_of, create_safe_log_filename, max_test_name_length}
use commons_operator.Executor.Naming.Safety.{
  create_safe_log_filename_lem, create_safe_log_filename_clash,
}
use commons_operator.Disk.{save_json}
use commons_operator.Manager.{update_runtime_history}
use commons_operator.Executor.Command.{setup_test_environment}
use commons_operator.Executor.Run.{result_of_run, Shell, run_single_test_suite}
use commons_operator.Executor.Run.Cleanup.{Adds, MayDo, run_single_test_suite_events}
use commons_operator.Executor.Run.Outcome.{is_none}
use commons_operator.Executor.Run.Recorded.{history, recorded, run_single_test_suite-recorded}
use commons_operator.Runner.{Runner}
use commons_operator.Runner.Serial.{any_success, retry_test_serially}
use commons_operator.Executor.Run.Total.{Answers, Creatable, run_single_test_suite-Returns}
use commons_operator.Runner.Serial.Total.{retry_test_serially_total}
use commons_operator.Runner.Serial.Attempts.{Retries}
use commons_operator.Runner.Summary.{process_all_test_results}
use commons_operator.Runner.Summary.Status.{
  retries_of, summarised, summary_of_test, lookup-process_all_test_results,
}
use commons_operator.Runner.Main.{finalize_and_report}
use commons_operator.Runner.Main.Exit.{code}
use commons_operator.Runner.Main.Total.{finalize_and_report_total}
use commons_operator.Tests.Whole.{whole}
use commons_operator.Tests.Samples.{smoke, logging, world, shell, runner, first_result}

result_of-result_dict_example : result_of (result_dict first_result) ≡ some first_result
result_of-result_dict_example = result_of-result_dict first_result

abbrev attempts : Dict (List (TestResult ℕ))
attempts = (smoke, first_result ∷ []) ∷ []

lookup-process_all_test_results_example :
    lookup smoke (process_all_test_results default_args attempts [] runner).test_summaries
    ≡ summarised default_args attempts []
        (lookup smoke runner.test_summaries)
        (any (λ n. text_eq n smoke) runner.failed_tests)
        (summary_of_test default_args attempts [] runner.initial_result_log smoke)
lookup-process_all_test_results_example =
    lookup-process_all_test_results default_args attempts [] runner smoke

abbrev summed_up : Runner ℕ
summed_up = process_all_test_results default_args attempts [] runner

-- The other failed test was not retried: the run fails.
finalize_and_report_total_example :
    (finalize_and_report world default_args
      (process_all_test_results default_args attempts [] runner)).0
    ≡ ok (
        code (
          all (λ name. any_success (retries_of default_args attempts [] name)) runner.failed_tests))
finalize_and_report_total_example =
    finalize_and_report_total default_args world attempts [] runner refl (λ path. refl)

abbrev pub after_run : Shell ℕ
after_run = (run_single_test_suite world default_args (some smoke) false (pos 1) serial shell).1

abbrev pub run_result : TestResult ℕ
run_result =
    result_of_run world (world.response 1) (codes "test-results") (some smoke) (pos 1) serial

pub smoke_runs :
    run_single_test_suite world default_args (some smoke) false (pos 1) serial shell
    ≡ (ok run_result, after_run)
unfolding run_single_test_suite result_of_run update_runtime_history save_json lookup insert text_eq
    setup_test_environment
smoke_runs = refl

run_single_test_suite-recorded_example :
    (run_result.test_name ≡ smoke)
    × (run_result.attempt ≡ pos 1)
    × (run_result.attempt_type ≡ serial)
    × (run_result.success ≡ is_zero (world.response 1).returncode)
    × (run_result.success ≡ is_none run_result.failed_step)
    × (history smoke after_run
        ≡ recorded
            (world.response 1).now
            run_result.duration
            run_result.test_name
            smoke
            (history smoke shell))
run_single_test_suite-recorded_example =
    run_single_test_suite-recorded world default_args (some smoke) false (pos 1) serial smoke shell
      after_run run_result smoke_runs

abbrev log_lines : List Line
log_lines =
    noise (codes "=== RUN   kuttl")
    ∷ failure (codes "    ") logging (codes " (9.1s)")
    ∷ failure (codes "    ") smoke (codes " (8.0s)")
    ∷ []

log_lines-IsLine : All IsLine log_lines
unfolding parse_failed_tests_from_log is_space find_groups match_at
log_lines-IsLine = (refl, ((refl, refl, refl, refl), ((refl, refl, refl, refl), tt)))

parse_failed_tests_from_log-log_of_example :
    parse_failed_tests_from_log (some (log_of log_lines)) ≡ logging ∷ smoke ∷ []
parse_failed_tests_from_log-log_of_example =
    parse_failed_tests_from_log-log_of log_lines log_lines-IsLine

create_safe_log_filename_lem_example :
    (has_char 47 (create_safe_log_filename world.md5 (codes "a/b") (pos 2) serial) ≡ false)
    × (length (create_safe_log_filename world.md5 (codes "a/b") (pos 2) serial)
        ≤ max_test_name_length + 14 + length (decimal_ℤ (pos 2)) + length serial)
create_safe_log_filename_lem_example =
    create_safe_log_filename_lem world.md5 (λ name. refl) (codes "a/b") (pos 2) serial refl

create_safe_log_filename_clash_example :
    create_safe_log_filename world.md5 (codes "a/b") (pos 2) serial
    ≡ create_safe_log_filename world.md5 (codes "a_b") (pos 2) serial
create_safe_log_filename_clash_example =
    create_safe_log_filename_clash world.md5 (codes "a") (codes "b") (pos 2) serial (omega arith)

run_single_test_suite_events_example :
    Adds
      (MayDo
        (some smoke)
        false
        run_result.success
        run_result.namespace
        (work_dir_of (some smoke) (pos 1) serial (world.response 1).work_timestamp))
      shell
      after_run
run_single_test_suite_events_example =
    run_single_test_suite_events world default_args (some smoke) false (pos 1) serial shell
      after_run run_result smoke_runs

answers : Answers world
answers zero = (refl, refl)
answers (suc n) = (refl, refl)

retry_test_serially_total_example :
    (rs : List (TestResult ℕ)) × (s' : Runner ℕ) × (retry_test_serially world default_args smoke
        (pos 3)
        runner
      ≡ (ok rs, s'))
    × Retries smoke 1 3 rs
    × (s'.results ≡ runner.results ++ rs)
unfolding setup_test_environment
retry_test_serially_total_example =
    retry_test_serially_total world default_args none refl answers 115
      (codes "moke_openshift-false") 3 runner (λ path. refl)

run_single_test_suite-Returns_example :
    Returns
      (λ b t. Creatable t)
      (run_single_test_suite world default_args (some smoke) false (pos 1) serial shell)
unfolding setup_test_environment
run_single_test_suite-Returns_example =
    run_single_test_suite-Returns world default_args (some smoke) false (pos 1) serial none shell
      refl answers (λ path. refl)
