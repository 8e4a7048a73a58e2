-- ===== src/Tests/Lines.antt =====
-- The text report and the state files, in the world of the other tests.
use commons_operator.Prelude.{
  ℕ, ◌≡◌, ◌≢◌, ◌⊎◌, refl, true, none, some, List, [], ◌∷◌, ◌++◌, Text, text_eq, length, All,
}
use commons_operator.Prelude.Dict.{Dict}
use commons_operator.Args.{default_args}
use commons_operator.Results.{TestResult}
use commons_operator.Runtime.{RuntimeHistory, get_average_runtime}
use commons_operator.Runner.State.{find_latest_state_file}
use commons_operator.Runner.State.Latest.{Occurs, NotNewer, find_latest_state_file_lem}
use commons_operator.Runner.Serial.{any_success}
use commons_operator.Runner.Summary.{process_all_test_results}
use commons_operator.Runner.Summary.Status.{retries_of}
use commons_operator.Runner.Report.Plain.{report_lines, runtime_statistics}
use commons_operator.Runner.Report.Plain.Sections.{has_line, mark}
use commons_operator.Runner.Report.Plain.Listed.{report_lines-listed}
use commons_operator.Runner.Report.Plain.Statistics.{all_runtimes, test_averages}
use commons_operator.Runner.Report.Plain.Order.{
  Parts, AreThree, shown_lines, runtime_statistics-Parts,
}
use commons_operator.Tests.Whole.{whole, whole-IsOrdered}
use commons_operator.Tests.Samples.{smoke, world, manager, runner, first_result}

abbrev recovered : Dict (List (TestResult ℕ))
recovered = (smoke, first_result ∷ []) ∷ []

report_lines-listed_example :
    has_line
      (mark (any_success (retries_of default_args recovered [] smoke)) ++ smoke)
      (report_lines world default_args (process_all_test_results default_args recovered [] runner))
    ≡ true
unfolding text_eq
report_lines-listed_example =
    report_lines-listed world default_args recovered [] runner refl smoke refl

abbrev histories : Dict (RuntimeHistory ℕ)
histories = manager.runtime_history

has_runs : all_runtimes histories ≢ []
unfolding all_runtimes
has_runs h = cc h

runtime_statistics-Parts_example :
    (slowest : List (Text × ℕ)) × (others : List (Text × ℕ)) × (before : List (Text × ℕ))
    × (fastest : List (Text × ℕ)) × (front : List Text) × (runtime_statistics histories
        ≡ (front ++ shown_lines slowest fastest) ++ [] ∷ [])
    × Parts (test_averages histories) slowest others
    × AreThree slowest others
    × Parts (test_averages histories) before fastest
    × AreThree fastest before
unfolding test_averages get_average_runtime
runtime_statistics-Parts_example =
    runtime_statistics-Parts whole-IsOrdered histories has_runs (refl, tt)

find_latest_state_file_lem_example :
    (world.state_files manager.output_dir ≡ []) × (find_latest_state_file world manager ≡ none)
    ⊎ ((path : Text) × (find_latest_state_file world manager ≡ some path)
        × Occurs path (world.state_files manager.output_dir)
        × All
            (NotNewer whole-IsOrdered world (λ path. whole-IsOrdered.of_ℕ_refl (length path)) path)
            (world.state_files manager.output_dir))
find_latest_state_file_lem_example =
    find_latest_state_file_lem whole-IsOrdered world
      (λ path. whole-IsOrdered.of_ℕ_refl (length path)) manager
