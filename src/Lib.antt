-- ===== src/Lib.antt =====
-- commons-operator: the Python scripts, which run its integration tests and post-process its
-- files, and the parts of the operator itself that decide something.
--
-- scripts/auto-retry-tests.py runs the integration tests through scripts/run-tests and retries the
-- failed ones, first in parallel and then one by one, until each has passed or its attempts are
-- used up. Its parts and the modules that model them:
--   * Runtime: `RuntimeHistory`, the last run times of a test, their average, median and range.
--   * Results: `TestResult` and `TestSummary` with their dictionaries in JSON.
--   * Disk: `safe_json_operation` over `safe_file_operation`, on a disk whose files can be
--     missing, denied or broken. Json has the values of a JSON file.
--   * Manager: `StateManager`, the part that keeps the run times. Its part that saves and loads
--     a run for resuming is Runner.State, since it reads and writes the fields of the runner.
--   * Executor: `TestExecutor`. Executor.Naming has the names of logs and work directories,
--     Executor.Command the command line and the environment of a run, Executor.Log what is read
--     from a log, and Executor.Run a run itself, `run_single_test_suite`, with its clean-up.
--   * Runner: `AutoRetryTestRunner`. Runner.Parallel and Runner.Serial retry tests,
--     Runner.Summary sums up, and Runner.Main has the modes of a run, its exit code, and `main`,
--     which reads its arguments (Args) by Args.CommandLine.
--   * Runner.Report: `ReportGenerator`. The text report is a list of lines: Runner.Report.Plain
--     has its sections, Runner.Report.Plain.Statistics the run times in it, Runner.Report.Lines
--     the lines without run times, and Runner.Report.Estimates `print_runtime_summary`.
-- The runner calls the executor, the executor the manager, and the manager the disk; each owns the
-- state of the next one (`shell`, `manager`, `disk`), and `in_shell`, `on_manager` and `on_disk`
-- lift the methods.
--
-- Below the modules of the code stand those of its proofs, named for what they are about: Record
-- and Codec of Runtime, Order of Float, Invariant and Reload of Manager, Lines of Executor.Log,
-- Safety of Executor.Naming, Outcome, Recorded, Cleanup, Total, Valid and Launched of
-- Executor.Run, RoundTrip of Results, RoundTrip and Latest of Runner.State, Attempts of
-- Runner.Serial and, with Rounds and OneRound, of Runner.Parallel, Status of Runner.Summary,
-- Counts, Sections, Listed and Order of Runner.Report.Plain, Exit, Total and Valid of Runner.Main,
-- Shape, Trim and File of Newline, Decimal of Options.Number, Pieces, Keeps and Keeps.Tokens of
-- Options, Extra of Args, Lines, Sections, Patches, Filters and Agrees of Launcher.Release, Keeps
-- of Launcher.Steps, and Clean, Plan, Passed and Passed.Installs of Launcher.Main. Valid, which
-- also stands below Runner itself and its retries, is about what stays true in any run, Total
-- about runs that return.
--
-- scripts/run-tests, which the executor starts, is Launcher: Launcher.Arguments its command line,
-- Launcher.Release the release file with other versions and fewer operators, Launcher.Steps the
-- steps that start programs, and Launcher.Main `release_file` and `main`. Its world (World of
-- Launcher) answers for the programs, tests/release.yaml and the temporary file. Launcher.Retry
-- puts the two scripts together: what `main` makes of the command line of `build_test_command`;
-- Executor.Run.Launched is about a run whose program is scripts/run-tests. Both scripts read their
-- command lines by Options, which is argparse of the standard library for parsers without
-- positional arguments, as of Python 3.14. It reads one argument after the other: its state has
-- the namespace so far and what the last option waits for. Options.Number is `int`.
--
-- scripts/ensure_one_trailing_newline.py is Newline: `process_lines` on the lines of a file, and
-- `trim` on its text.
--
-- Methods are functions of type `Exec S A` (Exec): they take a state and give a result, a value or
-- an exception, with the state at that point, since what was written before an exception stays
-- written. What the scripts do not decide is a parameter, World: how each process ends, what its
-- log has in it, how long it runs, the clock and how a time is printed, the environment variables,
-- the existence of paths, the state files that a glob finds and their times, MD5, and the order in
-- which the tests of a parallel round are completed. A floating-point number is a value of any
-- type with the operations of Float; where their order matters its laws are a parameter,
-- `IsOrdered`. The tests (Tests) have whole numbers in its place.
--
-- A text is a list of the code points. Integers that can be negative are `ℤ`. Dictionaries are
-- lists of entries in the order of insertion. The loops recurse on their lists or on the number of
-- attempts that are left, so none needs fuel.
--
-- rust/operator-binary/src is Operator, with one module for each file of it that is modelled:
--   * Operator.Delayed: utils/delayed_init.rs, a value that one task sets and others wait for.
--     The tasks are numbered, a step is what a task does under one lock, and any task may act
--     next, so a run is any sequence of steps. The channel below is a parameter with its
--     documented behaviour, `IsOneshot`. It wakes the task that polled it last; a call that
--     sleeps may be polled without that, as `Future::poll` allows.
--   * Operator.Pod: restart_controller/pod.rs. Instants are a parameter with the laws of
--     `IsChrono`, and what the API server answers to an eviction is one too. The evictions that
--     were asked for come back with the result.
--   * Operator.StatefulSet: restart_controller/statefulset.rs, the annotations of a template and
--     the patch with them. Operator.StatefulSet.Watch is about how `start` hands a store over to
--     its cell once the watch of it has an item. Operator.Objects has the objects that it reads
--     and Operator.Tree the ordered map. The two stores are functions from a namespace and a
--     name; a missing namespace or name, where the code panics, gives no result.
--   * Operator.Webhook: the handler of webhooks/restarter_mutate_sts.rs.
-- The webhook and the reconciliation share `get_updated_restarter_annotations`, which waits for
-- the two stores by a cell of Operator.Delayed each; their context is what those two waits
-- returned. Refines, Returns and Wakes of Operator.Delayed, Expiry, Evicts and Silent of
-- Operator.Pod, Mentions, References, Projected and Patches of Operator.StatefulSet and Applies of
-- Operator.Webhook have the proofs.
--
-- Not modelled: messages on the screen; the lines that the executor itself writes at the head of a
-- log, whose text the world gives as a whole; the creation of the output directory; the spellings
-- of a path that `Path` brings into one form, which is taken to be given; a call of `get` that is
-- given up, and a lock that is poisoned; the set-up of the controllers, the webhook server and
-- telemetry in the operator, which hands over to libraries; the shell scripts, which start other
-- programs; what `re.sub` makes of a version with a backslash. The tests of a parallel round run
-- one after the other here, in the order of their completion.
pub mod Args
pub mod Disk
pub mod Exec
pub mod Executor
pub mod Float
pub mod Json
pub mod Launcher
pub mod Manager
pub mod Newline
pub mod Operator
pub mod Options
pub mod Prelude
pub mod Results
pub mod Runner
pub mod Runtime
pub mod Tests
pub mod World
