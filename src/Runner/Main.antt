-- ===== src/Runner/Main.antt =====
-- The modes of a run, `run` and `main`, which is `run_command_line`.
pub mod Exit
pub mod Valid
pub mod Total
use commons_operator.Prelude.{
  ℕ, zero, ◌+◌, Bool, true, false, not, ◌&&◌, ◌||◌, Option, none, some, List, [], ◌∷◌, Text, codes,
  keep, length, text_eq, ◌==◌, if◌then◌else◌,
}
use commons_operator.Prelude.Int.{ℤ, pos}
use commons_operator.Prelude.Dict.{Dict, values}
use commons_operator.Float.{Float}
use commons_operator.Exec.{Exec, Result, ok, raised, pure, modify, gets, ◌>>=◌, ◌>>◌}
use commons_operator.Options.{Parsed, parsed, exit}
use commons_operator.Args.{Args}
use commons_operator.Args.CommandLine.{parse_args}
use commons_operator.World.{World}
use commons_operator.Disk.{Disk}
use commons_operator.Manager.{Manager, load_runtime_history}
use commons_operator.Results.{TestResult, TestSummary, initial, failed}
use commons_operator.Executor.Command.{given, is_given}
use commons_operator.Executor.Log.{parse_failed_tests_from_log}
use commons_operator.Executor.Run.{Shell, run_single_test_suite, on_manager}
use commons_operator.Runner.{Runner, in_shell}
use commons_operator.Runner.State.{load_state, load_failed_tests_from_state}
use commons_operator.Runner.Parallel.{execute_parallel_retries}
use commons_operator.Runner.Serial.{execute_serial_retries}
use commons_operator.Runner.Summary.{process_all_test_results}
use commons_operator.Runner.Report.{generate_and_save_final_report}

module _ {F : Type 0} ⦃d : Float F⦄ where
  abbrev pub set_failed_tests : List Text → Runner F → Runner F
  set_failed_tests names s = record s { failed_tests = names }

  -- `_load_failed_tests_for_rerun`, of the file that is named.
  unfoldable pub load_failed_tests_for_rerun : World F → Text → Exec (Runner F) Bool
  load_failed_tests_for_rerun world path = do
    failed_tests ← load_failed_tests_from_state world (some path)
    (elim failed_tests [
      | [] ↦ pure false
      | name ∷ names ↦ (do modify (set_failed_tests (name ∷ names)); pure true)
    ])

  -- The log of the first run is read again for the failed tests.
  abbrev pub parse_failures : TestResult F → Option Text → Exec (Runner F) Bool
  parse_failures result log = elim (parse_failed_tests_from_log log) [
    | [] ↦ pure false
    | name ∷ names ↦
        modify (λ s. record s { failed_tests = name ∷ names; initial_result_log = result.log_file })
        >> pure true
  ]

  -- `_run_initial_test_suite`
  unfoldable pub run_initial_test_suite : World F → Args → Exec (Runner F) Bool
  run_initial_test_suite world args = do
    call ← gets (λ s. s.shell.calls)
    result ← in_shell (run_single_test_suite world args none false (pos 1) initial)
    (elim result.success [
      | true ↦ (do generate_and_save_final_report world args; pure false)
      | false ↦ parse_failures result (world.response call).log
    ])

  -- A path that is the empty text counts as none.
  abbrev pub fresh_or_rerun : World F → Args → Option Text → Exec (Runner F) Bool
  fresh_or_rerun world args none = run_initial_test_suite world args
  fresh_or_rerun world args (some path) = load_failed_tests_for_rerun world path

  unfoldable pub initialize_run_mode : World F → Args → Exec (Runner F) Bool
  unfolding load_failed_tests_for_rerun run_initial_test_suite
  initialize_run_mode world args = do
    resumed ← gets (λ s. s.failed_tests)
    (elim resumed [
      | name ∷ names ↦ pure true
      | [] ↦ fresh_or_rerun world args (given args.rerun_failed)
    ])

  -- It always returns True.
  unfoldable pub execute_test_retries : World F → Args → Exec (Runner F) Bool
  execute_test_retries world args = do
    parallel_results ← execute_parallel_retries world args
    serial_results ← execute_serial_retries world args parallel_results
    modify (process_all_test_results args parallel_results serial_results)
    pure true

  unfoldable pub failed_count : Dict (TestSummary F) → ℕ
  failed_count summaries = length (keep (λ s. text_eq s.final_status failed) (values summaries))

  unfoldable pub finalize_and_report : World F → Args → Exec (Runner F) ℕ
  unfolding failed_count
  finalize_and_report world args = do
    generate_and_save_final_report world args
    gets (λ s. if failed_count s.test_summaries == 0 then 0 else 1)

  -- `run`: the exit code.
  unfoldable pub run : World F → Args → Exec (Runner F) ℕ
  run world args = do
    started ← initialize_run_mode world args
    if not started then pure 0 else do
      retried ← execute_test_retries world args
      if not retried then pure 1 else finalize_and_report world args

  -- `AutoRetryTestRunner(args)`, before the runtime history is loaded.
  abbrev pub new_runner : World F → Args → Disk F → Runner F
  new_runner world args disk = record {
    results = [];
    test_summaries = [];
    start_time = (world.response 0).now;
    failed_tests = [];
    parallel_attempts_done = pos 0;
    serial_attempts_done = [];
    initial_result_log = none;
    shell = record {
      manager = record { output_dir = args.output_dir; runtime_history = []; disk = disk };
      calls = 0;
      events = [];
    };
  }

  -- The code that a state file leads to, and `run` where it is loaded.
  abbrev pub resume_or_run : World F → Args → Option Text → Exec (Runner F) ℕ
  resume_or_run world args none s = run world args s
  resume_or_run world args (some path) s =
      if not (world.exists path)
      then (ok 1, s)
      else let (loaded, s') = load_state world path s in
        if loaded then run world args s' else (ok 1, s')

  -- `main`, from the parsed arguments on: the exit code, and the runner at the end.
  unfoldable pub main : World F → Args → Disk F → Result ℕ × Runner F
  main world args disk =
      let s = new_runner world args disk in
      if is_given (given args.resume) && is_given (given args.rerun_failed)
      then (ok 1, s)
      else (do
        in_shell (on_manager load_runtime_history)
        resume_or_run world args (given args.resume))
          s

  -- The whole of `main`, on `sys.argv[1:]`: where the command line is not accepted, argparse leaves
  -- with its code, and there is no runner.
  abbrev pub run_parsed : World F → Disk F → Parsed Args → Result ℕ × Option (Runner F)
  run_parsed world disk (exit code) = (ok code, none)
  run_parsed world disk (parsed args) = let (r, s) = main world args disk in (r, some s)

  unfoldable pub run_command_line : World F → List Text → Disk F → Result ℕ × Option (Runner F)
  unfolding main parse_args
  run_command_line world argv disk = run_parsed world disk (parse_args argv)
