-- ===== src/Runner/Parallel.antt =====
-- `retry_tests_in_parallel` and `execute_parallel_retries`. The tests of a round run at the same time;
-- here each runs when it is completed, in the order that the world chooses.
pub mod Valid
pub mod Rounds
pub mod OneRound
pub mod Attempts
use commons_operator.Prelude.{
  ℕ, zero, suc, ◌+◌, Bool, true, false, not, ◌&&◌, some, List, [], ◌∷◌, ◌++◌, keep, Text, ◌==◌,
  if◌then◌else◌,
}
use commons_operator.Prelude.Int.{ℤ, pos, pos_part, leb_ℤ, ltb_ℤ, ◌-ℤ◌}
use commons_operator.Prelude.Dict.{Dict, lookup, insert}
use commons_operator.Float.{Float}
use commons_operator.Exec.{Exec, Result, ok, raised, value_error, pure, gets, ◌>>=◌}
use commons_operator.Args.{Args}
use commons_operator.World.{World}
use commons_operator.Results.{TestResult, TestSummary, parallel}
use commons_operator.Executor.Run.{run_single_test_suite}
use commons_operator.Runner.{Runner, in_shell, append_result}
use commons_operator.Runner.Serial.{any_success, results_for, has_passed}

module _ {F : Type 0} ⦃d : Float F⦄ where
  unfoldable pub no_results_onto :
      Dict (List (TestResult F)) → List Text → Dict (List (TestResult F))
  no_results_onto all_results [] = all_results
  no_results_onto all_results (test_name ∷ rest) =
      no_results_onto (insert test_name [] all_results) rest

  -- `{test_name: [] for test_name in test_names}`
  unfoldable pub no_results : List Text → Dict (List (TestResult F))
  unfolding no_results_onto
  no_results = no_results_onto []

  unfoldable pub tests_to_retry : Dict (List (TestResult F)) → List Text → List Text
  tests_to_retry all_results =
      keep (λ test_name. not (any_success (results_for test_name all_results)))

  abbrev pub add_result :
      Text → TestResult F → Dict (List (TestResult F)) → Dict (List (TestResult F))
  add_result test_name result all_results =
      insert test_name (results_for test_name all_results ++ result ∷ []) all_results

  -- What one future gives: its result is kept, and an exception in it is caught.
  abbrev pub collect :
      Text
      → Result (TestResult F)
      → Dict (List (TestResult F))
      → Runner F
      → Dict (List (TestResult F)) × Runner F
  collect test_name (ok result) all_results s =
      (add_result test_name result all_results, append_result result s)
  collect test_name (raised e) all_results s = (all_results, s)

  -- The futures of a round, in the order of their completion.
  unfoldable pub complete_all :
      World F
      → Args
      → Bool
      → ℕ
      → List Text
      → Dict (List (TestResult F))
      → Runner F
      → Dict (List (TestResult F)) × Runner F
  complete_all world args skip_delete attempt [] all_results s = (all_results, s)
  complete_all world args skip_delete attempt (test_name ∷ rest) all_results s =
      let (r, s') =
        in_shell
          (run_single_test_suite world args (some test_name) skip_delete (pos attempt) parallel)
          s in
      let (all_results', s'') = collect test_name r all_results s' in
      complete_all world args skip_delete attempt rest all_results' s''

  -- `attempt` of the loop, with the attempts from it on that are left. `ThreadPoolExecutor` raises a
  -- ValueError where it is given no worker.
  unfoldable pub parallel_rounds :
      World F
      → Args
      → Bool
      → List Text
      → (left attempt max_attempts : ℕ) → Dict (List (TestResult F))
      → Exec (Runner F) (Dict (List (TestResult F)))
  unfolding tests_to_retry
  parallel_rounds world args serial_follows names zero attempt max_attempts all_results s =
      (ok all_results, s)
  parallel_rounds world args serial_follows names (suc left) attempt max_attempts all_results s =
      elim (tests_to_retry all_results names) [
        | [] ↦ (ok all_results, s)
        | test_name ∷ rest ↦ elim (leb_ℤ args.parallel (pos 0)) [
          | true ↦ (raised value_error, s)
          | false ↦
              let is_last_attempt = attempt == max_attempts in
              let skip_delete =
                not args.delete_failed_namespaces && not serial_follows && is_last_attempt in
              let order = world.completion s.shell.calls (test_name ∷ rest) in
              let (all_results', s') =
                complete_all world args skip_delete attempt order all_results s in
              parallel_rounds world args serial_follows names left (attempt + 1) max_attempts
                all_results' (record s' { parallel_attempts_done = pos attempt })
        ]
      ]

  unfoldable pub retry_tests_in_parallel :
      World F → Args → List Text → ℤ → Bool → Exec (Runner F) (Dict (List (TestResult F)))
  unfolding no_results
  retry_tests_in_parallel world args test_names max_attempts serial_tests_follow =
      if leb_ℤ max_attempts (pos 0)
      then pure (no_results test_names)
      else parallel_rounds world args serial_tests_follow test_names (pos_part max_attempts) 1
          (pos_part max_attempts) (no_results test_names)

  unfoldable pub tests_needing_parallel : List Text → Dict (TestSummary F) → List Text
  tests_needing_parallel names summaries =
      keep (λ test_name. not (has_passed (lookup test_name summaries))) names

  abbrev pub retry_needed :
      World F → Args → List Text → ℤ → Exec (Runner F) (Dict (List (TestResult F)))
  retry_needed world args [] remaining_attempts = pure []
  retry_needed world args (name ∷ names) remaining_attempts =
      retry_tests_in_parallel world args (name ∷ names) remaining_attempts
        (ltb_ℤ (pos 0) args.attempts_serial)

  unfoldable pub execute_parallel_retries :
      World F → Args → Exec (Runner F) (Dict (List (TestResult F)))
  unfolding tests_needing_parallel
  execute_parallel_retries world args = do
    attempts_done ← gets (λ s. s.parallel_attempts_done)
    needing ← gets (λ s. tests_needing_parallel s.failed_tests s.test_summaries)
    if ltb_ℤ (pos 0) args.attempts_parallel && ltb_ℤ attempts_done args.attempts_parallel
        then retry_needed world args needing (args.attempts_parallel -ℤ attempts_done)
        else pure []
