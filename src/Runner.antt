-- ===== src/Runner.antt =====
-- `AutoRetryTestRunner` of scripts/auto-retry-tests.py: its state. The methods stand in the modules
-- below: `State` saves and loads it, `Parallel` and `Serial` retry tests, `Summary` sums up, and
-- `Main` is the whole script.
pub mod State
pub mod Parallel
pub mod Serial
pub mod Summary
pub mod Report
pub mod Main
pub mod Valid
use commons_operator.Prelude.{Bool, Option, List, ◌++◌, [], ◌∷◌, Text}
use commons_operator.Prelude.Int.{ℤ}
use commons_operator.Prelude.Dict.{Dict}
use commons_operator.Exec.{Exec}
use commons_operator.Disk.{Disk}
use commons_operator.Manager.{Manager}
use commons_operator.Executor.Run.{Shell}
use commons_operator.Results.{TestResult, TestSummary}

pub record Runner (F : Type 0) : Type 0 where
  pub results : List (TestResult F)
  pub test_summaries : Dict (TestSummary F)
  -- The start time in the ISO format.
  pub start_time : Text
  pub failed_tests : List Text
  pub parallel_attempts_done : ℤ
  pub serial_attempts_done : Dict ℤ
  pub initial_result_log : Option Text
  -- The state manager and the executor.
  pub shell : Shell F

module _ {F : Type 0} where
  abbrev pub in_shell : {A : Type 0} → Exec (Shell F) A → Exec (Runner F) A
  in_shell f s = let (r, shell) = f s.shell in (r, record s { shell = shell })

  abbrev pub with_manager : Runner F → Manager F → Runner F
  with_manager s m = record s { shell = record s.shell { manager = m } }

  abbrev pub in_disk : {A : Type 0} → Exec (Disk F) A → Exec (Runner F) A
  in_disk f s =
      let (r, disk) = f s.shell.manager.disk in
      (r, with_manager s (record s.shell.manager { disk = disk }))

  -- `self.results.append(result)`
  abbrev pub append_result : TestResult F → Runner F → Runner F
  append_result result s = record s { results = s.results ++ result ∷ [] }
