-- ===== src/Runner/Serial/Valid.antt =====
-- Serial retries keep the run times valid.
use commons_operator.Prelude.{
  ℕ, zero, suc, ◌+◌, Bool, true, false, not, ◌&&◌, some, List, [], ◌∷◌, Text, ◌==◌,
}
use commons_operator.Prelude.Int.{ℤ, pos, pos_part, leb_ℤ, ltb_ℤ, ◌-ℤ◌}
use commons_operator.Prelude.Dict.{Dict, insert, lookup}
use commons_operator.Float.{Float}
use commons_operator.Exec.{Exec, pure, continue_keeps}
use commons_operator.Args.{Args}
use commons_operator.World.{World}
use commons_operator.Results.{TestResult, serial}
use commons_operator.Executor.Run.{run_single_test_suite}
use commons_operator.Runner.{Runner, append_result}
use commons_operator.Runner.State.{save_state}
use commons_operator.Runner.Serial.{
  serial_attempt, serial_attempts, retry_test_serially, serial_loop, execute_serial_retries,
  attempts_of, tests_still_failing,
}
use commons_operator.Runner.Valid.{KeepsValid, V, if_keeps, suite_keeps}

module _ {F : Type 0} ⦃d : Float F⦄ (world : World F) (args : Args) where
  save_state_keeps : KeepsValid {F = F} (save_state args)
  unfolding save_state
  save_state_keeps s h = record { distinct = h.distinct; slow = h.slow }

  serial_attempt_keeps :
      (name : Text) (skip_delete : Bool) (n : ℕ)
      → KeepsValid (serial_attempt world args name skip_delete n)
  unfolding serial_attempt
  serial_attempt_keeps name skip_delete n s h =
      let m = run_single_test_suite world args (some name) skip_delete (pos n) serial s.shell in
      continue_keeps V m.0 _ (record s { shell = m.1 })
        (suite_keeps world args (some name) skip_delete (pos n) serial s h)
        λ r t h.
          let saved = save_state args (append_result r t) in
          continue_keeps V saved.0 _ saved.1 (save_state_keeps (append_result r t) h) (λ b u h. h)

  -- The rest of the loop after an attempt, by its outcome.
  module _ (name : Text) (left n max : ℕ) where
    abbrev rest_of : Bool → Exec (Runner F) (List (TestResult F))
    rest_of b = elim b [ true ↦ pure [] | false ↦ serial_attempts world args name left n max ]

    rest_keeps :
        KeepsValid (serial_attempts world args name left n max)
        → (b : Bool) → KeepsValid (rest_of b)
    rest_keeps loop true s h = h
    rest_keeps loop false s h = loop s h

  serial_attempts_keeps :
      (name : Text) (left n max : ℕ) → KeepsValid (serial_attempts world args name left n max)
  unfolding serial_attempts
  serial_attempts_keeps name zero n max s h = h
  serial_attempts_keeps name (suc left) n max s h =
      let m =
        serial_attempt world args name (not args.delete_failed_namespaces && (n == max)) n s in
      continue_keeps V m.0 _ m.1
        (serial_attempt_keeps name (not args.delete_failed_namespaces && (n == max)) n s h)
        λ r t h.
          let rest = rest_of name left (n + 1) max r.success t in
          continue_keeps V rest.0 _ rest.1
            (rest_keeps name left (n + 1) max (serial_attempts_keeps name left (n + 1) max)
              r.success t h)
            (λ rs u h. h)

  retry_test_serially_keeps :
      (name : Text) (max : ℤ) → KeepsValid (retry_test_serially world args name max)
  unfolding retry_test_serially
  retry_test_serially_keeps name max =
      if_keeps (leb_ℤ max (pos 0)) (pure [])
        (serial_attempts world args name (pos_part max) 1 (pos_part max)) (λ s h. h)
        (serial_attempts_keeps name (pos_part max) 1 (pos_part max))

  serial_loop_keeps :
      (names : List Text) (all_results : Dict (List (TestResult F)))
      → KeepsValid (serial_loop world args names all_results)
  unfolding serial_loop
  serial_loop_keeps [] all_results s h = h
  serial_loop_keeps (name ∷ rest) all_results s h =
      let remaining = args.attempts_serial -ℤ attempts_of (lookup name s.serial_attempts_done) in
      if_keeps (ltb_ℤ (pos 0) remaining) _ (serial_loop world args rest all_results)
        (λ s h.
          let m = retry_test_serially world args name remaining s in
          continue_keeps V m.0 _ m.1 (retry_test_serially_keeps name remaining s h)
            (λ rs. serial_loop_keeps rest (insert name rs all_results)))
        (serial_loop_keeps rest all_results) s h

  pub execute_serial_retries_keeps :
      (par : Dict (List (TestResult F))) → KeepsValid (execute_serial_retries world args par)
  unfolding execute_serial_retries
  execute_serial_retries_keeps par s h =
      if_keeps (ltb_ℤ (pos 0) args.attempts_serial)
        (serial_loop world args (tests_still_failing par s.failed_tests s.test_summaries) [])
        (pure []) (serial_loop_keeps _ []) (λ s h. h) s h
