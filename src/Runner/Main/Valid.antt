-- ===== src/Runner/Main/Valid.antt =====
-- A whole run keeps the run times valid, whatever happens in it.
use commons_operator.Prelude.{
  sym, subst, Bool, true, false, not, Option, none, some, List, [], ◌∷◌, Text,
}
use commons_operator.Prelude.Int.{pos}
use commons_operator.Float.{Float}
use commons_operator.Exec.{Exec, ◌>>◌, pure, modify, continue_keeps}
use commons_operator.Args.{Args}
use commons_operator.World.{World}
use commons_operator.Results.{TestResult, initial}
use commons_operator.Manager.Invariant.{IsValid}
use commons_operator.Executor.Run.{run_single_test_suite}
use commons_operator.Executor.Run.Valid.{HasValid}
use commons_operator.Runner.{Runner}
use commons_operator.Runner.State.{load_failed_tests_from_state}
use commons_operator.Runner.Parallel.{execute_parallel_retries}
use commons_operator.Executor.Log.{parse_failed_tests_from_log}
use commons_operator.Executor.Command.{given}
use commons_operator.Runner.Report.{
  save_text_report, generate_and_save_final_report, save_detailed_json_report,
}
use commons_operator.Runner.Main.Total.{processed_shell}
use commons_operator.Runner.Main.{
  execute_test_retries, parse_failures, run_initial_test_suite, load_failed_tests_for_rerun,
  fresh_or_rerun, initialize_run_mode, finalize_and_report, run, set_failed_tests,
}
use commons_operator.Runner.Serial.{execute_serial_retries}
use commons_operator.Runner.Valid.{KeepsValid, V, if_keeps, suite_keeps}
use commons_operator.Runner.Serial.Valid.{execute_serial_retries_keeps}
use commons_operator.Runner.Parallel.Valid.{execute_parallel_retries_keeps}

module _ {F : Type 0} ⦃d : Float F⦄ (world : World F) (args : Args) where
  execute_test_retries_keeps : KeepsValid (execute_test_retries world args)
  unfolding execute_test_retries
  execute_test_retries_keeps s h =
      let m = execute_parallel_retries world args s in
      continue_keeps V m.0 _ m.1 (execute_parallel_retries_keeps world args s h) λ par t h.
        let k = execute_serial_retries world args par t in
        continue_keeps V k.0 _ k.1 (execute_serial_retries_keeps world args par t h)
          λ ser u h. subst HasValid (sym (processed_shell args par ser u)) h

  report_keeps : KeepsValid (generate_and_save_final_report world args)
  unfolding generate_and_save_final_report save_detailed_json_report save_text_report
  report_keeps s h =
      let saved = save_detailed_json_report world args (save_text_report world args s) in
      continue_keeps V saved.0 _ saved.1 (record { distinct = h.distinct; slow = h.slow })
        (λ b t h. h)

  parse_failures_keeps :
      (result : TestResult F) (log : Option Text) → KeepsValid (parse_failures result log)
  parse_failures_keeps result log = parsed (parse_failed_tests_from_log log)
    where
      parsed :
          (names : List Text)
          → KeepsValid {F = F} (elim names [
            | [] ↦ pure false
            | name ∷ names ↦
                modify (λ s. record s {
                  failed_tests = name ∷ names;
                  initial_result_log = result.log_file;
                })
                >> pure true
          ])
      parsed [] s h = h
      parsed (name ∷ names) s h = h

  -- What follows the first run of the suite.
  module _ (result : TestResult F) (log : Option Text) where
    abbrev after_suite : Bool → Exec (Runner F) Bool
    after_suite success = elim success [
      | true ↦ (do generate_and_save_final_report world args; pure false)
      | false ↦ parse_failures result log
    ]

    after_suite_keeps : (success : Bool) → KeepsValid (after_suite success)
    after_suite_keeps true s h =
        let m = generate_and_save_final_report world args s in
        continue_keeps V m.0 _ m.1 (report_keeps s h) (λ b t h. h)
    after_suite_keeps false s h = parse_failures_keeps result log s h

  run_initial_test_suite_keeps : KeepsValid (run_initial_test_suite world args)
  unfolding run_initial_test_suite
  run_initial_test_suite_keeps s h =
      let m = run_single_test_suite world args none false (pos 1) initial s.shell in
      continue_keeps V m.0 _ (record s { shell = m.1 })
        (suite_keeps world args none false (pos 1) initial s h)
        λ r t h. after_suite_keeps r (world.response s.shell.calls).log r.success t h

  -- What follows the reading of the names in a file.
  abbrev after_names : List Text → Exec (Runner F) Bool
  after_names names = elim names [
    | [] ↦ pure false
    | name ∷ names ↦ (do modify (set_failed_tests (name ∷ names)); pure true)
  ]

  after_names_keeps : (names : List Text) → KeepsValid (after_names names)
  after_names_keeps [] s h = h
  after_names_keeps (name ∷ names) s h = h

  load_failed_tests_for_rerun_keeps :
      (path : Text) → KeepsValid (load_failed_tests_for_rerun world path)
  unfolding load_failed_tests_for_rerun load_failed_tests_from_state
  load_failed_tests_for_rerun_keeps path s h =
      let m = load_failed_tests_from_state world (some path) s in
      continue_keeps V m.0 _ m.1 h (λ names t h. after_names_keeps names t h)

  abbrev by_path : Option Text → Exec (Runner F) Bool
  by_path path = fresh_or_rerun world args path

  by_path_keeps : (path : Option Text) → KeepsValid (by_path path)
  by_path_keeps none s h = run_initial_test_suite_keeps s h
  by_path_keeps (some path) s h = load_failed_tests_for_rerun_keeps path s h

  abbrev by_mode : List Text → Exec (Runner F) Bool
  by_mode resumed = elim resumed [
    | name ∷ names ↦ pure true
    | [] ↦ fresh_or_rerun world args (given args.rerun_failed)
  ]

  by_mode_keeps : (resumed : List Text) → KeepsValid (by_mode resumed)
  by_mode_keeps [] s h = by_path_keeps (given args.rerun_failed) s h
  by_mode_keeps (name ∷ names) s h = h

  initialize_run_mode_keeps : KeepsValid (initialize_run_mode world args)
  unfolding initialize_run_mode
  initialize_run_mode_keeps s h = by_mode_keeps s.failed_tests s h

  finalize_and_report_keeps : KeepsValid (finalize_and_report world args)
  unfolding finalize_and_report
  finalize_and_report_keeps s h =
      let m = generate_and_save_final_report world args s in
      continue_keeps V m.0 _ m.1 (report_keeps s h) (λ b t h. h)

  -- Whatever the world answers, and whether the run returns or raises: if each test had one history
  -- and no history a run time below the threshold, that is so after the run.
  pub run-IsValid :
      (s : Runner F) → IsValid s.shell.manager → IsValid (run world args s).1.shell.manager
  unfolding run
  run-IsValid s h =
      let m = initialize_run_mode world args s in
      continue_keeps V m.0 _ m.1 (initialize_run_mode_keeps s h) λ started t h.
        if_keeps (not started) (pure 0) _ (λ s h. h)
          (λ t h.
            let k = execute_test_retries world args t in
            continue_keeps V k.0 _ k.1 (execute_test_retries_keeps t h) λ retried u h.
              if_keeps (not retried) (pure 1) (finalize_and_report world args) (λ s h. h)
                finalize_and_report_keeps u h)
          t h
