-- ===== src/Tests/Launches.antt =====
-- scripts/run-tests and the command lines, where the programs end quietly.
use commons_operator.Prelude.{
  Option, Bool, ◌≡◌, refl, subst, true, false, none, some, List, [], ◌∷◌, ◌++◌, Text, codes, arith,
  text_eq, is_in, starts_with, decimal, join, drop,
}
use commons_operator.Prelude.Int.{pos}
use commons_operator.Prelude.Dict.{Dict, lookup}
use commons_operator.Exec.{Result, ok, raised, type_error}
use commons_operator.Args.{Args, default_args}
use commons_operator.Executor.Naming.{work_dir_of}
use commons_operator.Executor.Run.{result_of_run}
use commons_operator.Executor.Run.Launched.{Starts, run_single_test_suite-AllPass}
use commons_operator.Results.{serial}
use commons_operator.Tests.Whole.{whole}
use commons_operator.Tests.Samples.{smoke, world, shell}
use commons_operator.Tests.Reports.{run_result, after_run, smoke_runs}
use commons_operator.Executor.Command.{build_test_command}
use commons_operator.Newline.{readlines}
use commons_operator.Options.{parse}
use commons_operator.Launcher.{World, Session}
use commons_operator.Launcher.Arguments.{Namespace, default_namespace, options, parse_args}
use commons_operator.Launcher.Release.{patched_contents}
use commons_operator.Launcher.Release.Sections.{sections, ended}
use commons_operator.Launcher.Release.Agrees.{patched_contents-released}
use commons_operator.Launcher.Main.{main}
use commons_operator.Launcher.Main.Clean.{IsTidy, main-files}
use commons_operator.Launcher.Main.Plan.{GoesWell, ended_quietly, plan, after}
use commons_operator.Launcher.Main.Passed.{AllPass, main-AllPass}
use commons_operator.Launcher.Retry.{
  requested, parse_args-build_test_command, main-build_test_command, main-extra_args,
}

abbrev preamble : List Text
preamble = codes "releases:" ∷ codes "  tests:" ∷ codes "    products:" ∷ []

abbrev products : Dict Text
products =
    (codes "commons", codes "0.0.0-dev")
    ∷ (codes "airflow", codes "0.0.0-dev")
    ∷ (codes "listener", codes "0.0.0-dev")
    ∷ []

abbrev new_file : Text
new_file = codes "/tmp/patched1"

abbrev quiet : World
quiet = record {
  which = λ command. true;
  process = λ n. ok ended_quietly;
  release = ok (codes "releases:\n");
  temporary = ok new_file;
  writable = true;
  removable = true;
  template = λ text. ok text;
}

abbrev empty : Session
empty = record { commands = []; files = [] }

abbrev NamesIt : Result Text → Type 0
NamesIt (ok path) = is_in (codes "patched") path ≡ true
NamesIt (raised e) = Unit

quiet-IsTidy : IsTidy quiet []
unfolding is_in starts_with lookup
quiet-IsTidy = record {
  writes = refl;
  removes = refl;
  named = λ path e. subst NamesIt e refl;
  is_new = λ path e. refl;
}

abbrev opts : Namespace
opts = requested default_args (some (codes "smoke")) true (some (codes "work"))

quiet-GoesWell :
    (test_name : Option Text) (skip_delete : Bool) (work_dir : Option Text)
    → GoesWell quiet (requested default_args test_name skip_delete work_dir) new_file
unfolding patched_contents readlines requested
quiet-GoesWell test_name skip_delete work_dir = record {
  found = refl;
  ends = λ n. refl;
  contents = codes "releases:";
  patches = refl;
  makes = refl;
}

-- An operator that is not there fails the run before anything is installed.
unknown_operator :
    (main quiet (codes "run-tests" ∷ codes "--operator" ∷ codes "hive=1" ∷ []) empty).0 ≡ ok 1
unfolding main
unknown_operator = refl

-- A file that cannot be removed leads to a TypeError.
file_that_stays :
    (main
      (record quiet { removable = false })
      (codes "run-tests" ∷ codes "--skip-tests" ∷ [])
      empty).0
    ≡ raised type_error
unfolding main
file_that_stays = refl

-- The empty version is accepted, and the operator keeps its own.
empty_version :
    patched_contents quiet ((codes "commons", []) ∷ []) [] (ended (preamble ++ sections products))
    ≡ ok (join (codes "\n") (preamble ++ sections products))
unfolding patched_contents is_in starts_with text_eq
empty_version = refl

-- A name that is in some line is taken for that of an operator.
no_operator :
    (patched_contents quiet
        ((codes "tests", codes "1") ∷ [])
        []
        (ended (preamble ++ sections products))
      ≡ ok (join (codes "\n") (preamble ++ sections products)))
    × (patched_contents quiet [] (codes "releases" ∷ []) (ended (preamble ++ sections products))
        ≡ ok (join (codes "\n") (codes "    products:" ∷ sections products)))
unfolding patched_contents is_in starts_with text_eq
no_operator = (refl, refl)

parse_args-build_test_command_example :
    parse_args
      (drop 1 (build_test_command default_args (some (codes "smoke")) true (some (codes "work"))))
    ≡ parse options (requested default_args (some (codes "smoke")) true (some (codes "work"))) []
unfolding decimal
parse_args-build_test_command_example =
    parse_args-build_test_command default_args (some (codes "smoke")) true (some (codes "work"))
      refl refl (omega arith)

main-build_test_command_example :
    main quiet
      (build_test_command default_args (some (codes "smoke")) true (some (codes "work")))
      empty
    ≡ (ok 0, after empty (plan opts new_file))
unfolding decimal
main-build_test_command_example =
    main-build_test_command default_args (some (codes "smoke")) true (some (codes "work")) refl refl
      (omega arith) quiet empty new_file refl
      (quiet-GoesWell (some (codes "smoke")) true (some (codes "work"))) quiet-IsTidy

abbrev retry_dir : Text
retry_dir = work_dir_of (some smoke) (pos 1) serial (codes "1")

abbrev retry_opts : Namespace
retry_opts = requested default_args (some smoke) false (some retry_dir)

retried :
    main quiet (build_test_command default_args (some smoke) false (some retry_dir)) empty
    ≡ (ok 0, after empty (plan retry_opts new_file))
unfolding decimal
retried =
    main-build_test_command default_args (some smoke) false (some retry_dir) refl
      (unfold work_dir_of in refl) (omega arith) quiet empty new_file refl
      (quiet-GoesWell (some smoke) false (some retry_dir)) quiet-IsTidy

run_single_test_suite-AllPass_example :
    Starts world default_args
      (some smoke)
      false
      (pos 1)
      serial
      (world.response 1)
      (some smoke)
      shell
      after_run
    × AllPass quiet retry_opts [] (plan retry_opts new_file)
unfolding decimal result_of_run
run_single_test_suite-AllPass_example =
    run_single_test_suite-AllPass world default_args (some smoke) false (pos 1) serial quiet empty
      (after empty (plan retry_opts new_file)) 0 shell after_run run_result refl refl (omega arith)
      retried refl smoke_runs refl

abbrev with_words : Args
with_words = record default_args { extra_args = codes "skip-release" ∷ [] }

main-extra_args_example :
    main quiet (build_test_command with_words (some (codes "smoke")) true none) empty
    ≡ (ok 2, empty)
unfolding decimal
main-extra_args_example =
    main-extra_args with_words (some (codes "smoke")) true none refl tt (omega arith) quiet empty
      (codes "skip-release") [] refl (refl, tt)

main-files_example :
    (main quiet (codes "run-tests" ∷ codes "--skip-operator" ∷ codes "nothing" ∷ []) empty).1.files
    ≡ []
main-files_example =
    main-files quiet (codes "run-tests" ∷ codes "--skip-operator" ∷ codes "nothing" ∷ []) empty
      quiet-IsTidy

main-AllPass_example : AllPass quiet default_namespace [] (plan default_namespace new_file)
unfolding parse_args main
main-AllPass_example =
    main-AllPass quiet (codes "run-tests" ∷ []) default_namespace empty
      (after empty (plan default_namespace new_file)) refl refl refl

patched_contents-released_example :
    patched_contents quiet
      ((codes "commons", codes "1.2.3") ∷ [])
      (codes "listener" ∷ [])
      (ended (preamble ++ sections products))
    ≡ ok (
        join (codes "\n") (
          preamble
          ++ sections
              ((codes "commons", codes "1.2.3") ∷ (codes "airflow", codes "0.0.0-dev") ∷ [])))
unfolding text_eq is_in starts_with lookup
patched_contents-released_example =
    patched_contents-released quiet ((codes "commons", codes "1.2.3") ∷ []) (codes "listener" ∷ [])
      preamble products ((refl, refl, refl), tt)
      ((refl, refl, refl), ((refl, refl, refl), ((refl, refl, refl), tt)))
      (
        (refl, refl, (refl, tt), (refl, tt), refl, refl),
        (
          (refl, refl, (refl, tt), (refl, tt), refl, refl),
          ((refl, refl, (refl, tt), (refl, tt), refl, refl), tt),
        ),
      )
