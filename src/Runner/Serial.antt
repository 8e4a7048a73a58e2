-- ===== src/Runner/Serial.antt =====
-- `retry_test_serially` and `execute_serial_retries`.
pub mod Attempts
pub mod Total
pub mod Valid
use commons_operator.Prelude.{
  ℕ, zero, suc, ◌+◌, Bool, true, false, not, ◌&&◌, Option, none, some, List, [], ◌∷◌, ◌++◌, Text,
  any, ◌==◌, text_eq, if◌then◌else◌,
}
use commons_operator.Prelude.Int.{ℤ, pos, negsuc, pos_part, leb_ℤ, ltb_ℤ, ◌-ℤ◌}
use commons_operator.Prelude.Dict.{Dict, lookup, insert}
use commons_operator.Float.{Float}
use commons_operator.Exec.{Exec, Result, ok, raised, pure, modify, gets, ◌>>=◌, ◌>>◌}
use commons_operator.Args.{Args}
use commons_operator.World.{World}
use commons_operator.Results.{TestResult, TestSummary, serial, passed, flaky}
use commons_operator.Executor.Run.{Shell, run_single_test_suite}
use commons_operator.Runner.{Runner, in_shell, append_result}
use commons_operator.Runner.State.{save_state}

-- `self.serial_attempts_done.get(test_name, 0)`
abbrev pub attempts_of : Option ℤ → ℤ
attempts_of none = pos 0
attempts_of (some n) = n

module _ {F : Type 0} where
  -- The results of a dictionary, `d.get(test_name, [])`.
  abbrev pub results_for : Text → Dict (List (TestResult F)) → List (TestResult F)
  results_for test_name all_results = elim (lookup test_name all_results) [
    | none ↦ []
    | some rs ↦ rs
  ]

  abbrev pub any_success : List (TestResult F) → Bool
  any_success = any (λ r. r.success)

  -- Whether a test has a summary that says that it passed.
  abbrev pub has_passed : Option (TestSummary F) → Bool
  has_passed none = false
  has_passed (some s) = elim (text_eq s.final_status passed) [
    | true ↦ true
    | false ↦ text_eq s.final_status flaky
  ]

  -- The tests that have not passed before and failed each of these parallel attempts.
  unfoldable pub tests_still_failing :
      Dict (List (TestResult F)) → List Text → Dict (TestSummary F) → List Text
  tests_still_failing parallel_results [] summaries = []
  tests_still_failing parallel_results (test_name ∷ rest) summaries =
      let others = tests_still_failing parallel_results rest summaries in
      if has_passed (lookup test_name summaries)
      then others
      else if any_success (results_for test_name parallel_results)
      then others
      else test_name ∷ others

module _ {F : Type 0} ⦃d : Float F⦄ where
  -- One attempt: run the test, keep the result, save the state, and then count the attempt.
  unfoldable pub serial_attempt : World F → Args → Text → Bool → ℕ → Exec (Runner F) (TestResult F)
  serial_attempt world args test_name skip_delete attempt = do
    result ←
        in_shell
          (run_single_test_suite world args (some test_name) skip_delete (pos attempt) serial)
    modify (append_result result)
    saved ← save_state args
    modify (λ s. record s {
      serial_attempts_done = insert test_name (pos attempt) s.serial_attempts_done;
    })
    pure result

  -- The attempts from `attempt` on, as many as are left: the loop ends with the first that passes,
  -- and the namespace is kept in the last one if failed namespaces are not deleted.
  unfoldable pub serial_attempts :
      World F
      → Args
      → Text
      → (left attempt max_attempts : ℕ) → Exec (Runner F) (List (TestResult F))
  serial_attempts world args test_name zero attempt max_attempts = pure []
  serial_attempts world args test_name (suc left) attempt max_attempts = do
    let is_last_attempt = attempt == max_attempts
    result ←
        serial_attempt world args test_name (not args.delete_failed_namespaces && is_last_attempt)
          attempt
    rest ← (elim result.success [
      | true ↦ pure []
      | false ↦ serial_attempts world args test_name left (attempt + 1) max_attempts
    ])
    pure (result ∷ rest)

  unfoldable pub retry_test_serially :
      World F → Args → Text → ℤ → Exec (Runner F) (List (TestResult F))
  retry_test_serially world args test_name max_attempts =
      if leb_ℤ max_attempts (pos 0)
      then pure []
      else serial_attempts world args test_name (pos_part max_attempts) 1 (pos_part max_attempts)

  -- The loop over those tests. A test that is named twice is retried twice, and the later results
  -- take the place of the earlier ones.
  unfoldable pub serial_loop :
      World F
      → Args
      → List Text
      → Dict (List (TestResult F))
      → Exec (Runner F) (Dict (List (TestResult F)))
  serial_loop world args [] all_results = pure all_results
  serial_loop world args (test_name ∷ rest) all_results = do
    attempts_done ← gets (λ s. attempts_of (lookup test_name s.serial_attempts_done))
    let remaining_attempts = args.attempts_serial -ℤ attempts_done
    if ltb_ℤ (pos 0) remaining_attempts
        then (do
          results ← retry_test_serially world args test_name remaining_attempts
          serial_loop world args rest (insert test_name results all_results))
        else serial_loop world args rest all_results

  unfoldable pub execute_serial_retries :
      World F → Args → Dict (List (TestResult F)) → Exec (Runner F) (Dict (List (TestResult F)))
  execute_serial_retries world args all_parallel_results = do
    failing ← gets (λ s. tests_still_failing all_parallel_results s.failed_tests s.test_summaries)
    if ltb_ℤ (pos 0) args.attempts_serial then serial_loop world args failing [] else pure []
