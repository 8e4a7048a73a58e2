-- ===== src/Runner/Parallel/Valid.antt =====
-- Parallel retries keep the run times valid.
use commons_operator.Prelude.{
  ℕ, zero, suc, ◌+◌, ◌≡◌, refl, sym, subst, Bool, true, false, not, ◌&&◌, some, List, [], ◌∷◌, Text,
  ◌==◌,
}
use commons_operator.Prelude.Int.{ℤ, pos, pos_part, leb_ℤ, ltb_ℤ, ◌-ℤ◌}
use commons_operator.Prelude.Dict.{Dict}
use commons_operator.Float.{Float}
use commons_operator.Exec.{Result, ok, raised, value_error, pure}
use commons_operator.Args.{Args}
use commons_operator.World.{World}
use commons_operator.Results.{TestResult, parallel}
use commons_operator.Executor.Run.{run_single_test_suite}
use commons_operator.Executor.Run.Valid.{HasValid}
use commons_operator.Runner.{Runner, in_shell}
use commons_operator.Runner.Parallel.{
  collect, complete_all, parallel_rounds, retry_tests_in_parallel, no_results, tests_to_retry,
  tests_needing_parallel, retry_needed, execute_parallel_retries,
}
use commons_operator.Runner.Valid.{KeepsValid, V, if_keeps, suite_keeps}

module _ {F : Type 0} ⦃d : Float F⦄ (world : World F) (args : Args) where
  collect_shell :
      (name : Text) (r : Result (TestResult F)) (all_results : Dict (List (TestResult F)))
      (s : Runner F)
      → (collect name r all_results s).1.shell ≡ s.shell
  collect_shell name (ok result) all_results s = refl
  collect_shell name (raised e) all_results s = refl

  complete_all_keeps :
      (skip_delete : Bool) (n : ℕ) (names : List Text) (all_results : Dict (List (TestResult F)))
      (s : Runner F)
      → V s
      → V (complete_all world args skip_delete n names all_results s).1
  unfolding complete_all
  complete_all_keeps skip_delete n [] all_results s h = h
  complete_all_keeps skip_delete n (name ∷ rest) all_results s h =
      let m =
        in_shell (run_single_test_suite world args (some name) skip_delete (pos n) parallel) s in
      let next = collect name m.0 all_results m.1 in
      complete_all_keeps skip_delete n rest next.0 next.1 (
        subst HasValid (sym (collect_shell name m.0 all_results m.1))
          (suite_keeps world args (some name) skip_delete (pos n) parallel s h))

  -- A round of the loop, by the tests to retry and by whether there is a worker.
  module _ (serial_follows : Bool) (names : List Text) (left n max : ℕ)
      (all_results : Dict (List (TestResult F)))
      (loop : (found : Dict (List (TestResult F)))
        → KeepsValid (parallel_rounds world args serial_follows names left (n + 1) max found))
      (s : Runner F) (h : V s) where
    abbrev skips : Bool
    skips = not args.delete_failed_namespaces && not serial_follows && (n == max)

    abbrev round : List Text → Dict (List (TestResult F)) × Runner F
    round retried =
        complete_all world args skips n (world.completion s.shell.calls retried) all_results s

    abbrev rest_of_rounds : List Text → Bool → Result (Dict (List (TestResult F))) × Runner F
    rest_of_rounds retried no_worker = elim retried [
      | [] ↦ (ok all_results, s)
      | name ∷ rest ↦ elim no_worker [
        | true ↦ (raised value_error, s)
        | false ↦
            parallel_rounds world args serial_follows names left (n + 1) max (round (name ∷ rest)).0
              (record (round (name ∷ rest)).1 { parallel_attempts_done = pos n })
      ]
    ]

    round_keeps : (retried : List Text) (no_worker : Bool) → V (rest_of_rounds retried no_worker).1
    round_keeps [] no_worker = h
    round_keeps (name ∷ rest) true = h
    round_keeps (name ∷ rest) false =
        loop (round (name ∷ rest)).0 _ (
          complete_all_keeps skips n (world.completion s.shell.calls (name ∷ rest)) all_results s h)

  parallel_rounds_keeps :
      (serial_follows : Bool) (names : List Text) (left n max : ℕ)
      (all_results : Dict (List (TestResult F)))
      → KeepsValid (parallel_rounds world args serial_follows names left n max all_results)
  unfolding parallel_rounds
  parallel_rounds_keeps serial_follows names zero n max all_results s h = h
  parallel_rounds_keeps serial_follows names (suc left) n max all_results s h =
      round_keeps serial_follows names left n max all_results
        (parallel_rounds_keeps serial_follows names left (n + 1) max) s h
        (tests_to_retry all_results names) (leb_ℤ args.parallel (pos 0))

  retry_tests_in_parallel_keeps :
      (names : List Text) (max : ℤ) (serial_follows : Bool)
      → KeepsValid (retry_tests_in_parallel world args names max serial_follows)
  unfolding retry_tests_in_parallel
  retry_tests_in_parallel_keeps names max serial_follows =
      if_keeps (leb_ℤ max (pos 0)) (pure (no_results names))
        (parallel_rounds world args serial_follows names (pos_part max) 1 (pos_part max)
          (no_results names))
        (λ s h. h)
        (parallel_rounds_keeps serial_follows names (pos_part max) 1 (pos_part max)
          (no_results names))

  retry_needed_keeps :
      (names : List Text) (max : ℤ) → KeepsValid (retry_needed world args names max)
  retry_needed_keeps [] max s h = h
  retry_needed_keeps (name ∷ names) max s h =
      retry_tests_in_parallel_keeps (name ∷ names) max (ltb_ℤ (pos 0) args.attempts_serial) s h

  pub execute_parallel_retries_keeps : KeepsValid (execute_parallel_retries world args)
  unfolding execute_parallel_retries
  execute_parallel_retries_keeps s h =
      let done = s.parallel_attempts_done in
      let needing = tests_needing_parallel s.failed_tests s.test_summaries in
      if_keeps (ltb_ℤ (pos 0) args.attempts_parallel && ltb_ℤ done args.attempts_parallel)
        (retry_needed world args needing (args.attempts_parallel -ℤ done)) (pure [])
        (retry_needed_keeps needing (args.attempts_parallel -ℤ done)) (λ s h. h) s h
