-- ===== src/Executor/Command.antt =====
-- `build_test_command` and `setup_test_environment` of `TestExecutor`.
use commons_operator.Prelude.{
  Bool, true, false, not, ◌&&◌, Option, none, some, List, [], ◌∷◌, ◌++◌, Text, codes, if◌then◌else◌,
}
use commons_operator.Prelude.Int.{is_zero, decimal_ℤ}
use commons_operator.Prelude.Dict.{Dict, lookup, insert}
use commons_operator.Exec.{Result, ok, raised, key_error}
use commons_operator.Args.{Args}
use commons_operator.World.{World}

-- A test name or a path that is the empty text counts as none.
abbrev pub given : Option Text → Option Text
given (some (c ∷ s)) = some (c ∷ s)
given _ = none

abbrev pub option_args : Text → Option Text → List Text
option_args flag none = []
option_args flag (some value) = flag ∷ value ∷ []

abbrev pub is_given : Option Text → Bool
is_given none = false
is_given (some s) = true

unfoldable pub build_test_command : Args → Option Text → Bool → Option Text → List Text
build_test_command args test_name skip_delete work_dir =
    (codes "scripts/run-tests" ∷ [])
    ++ ((if not (is_zero args.parallel) && not (is_given (given test_name))
          then codes "--parallel" ∷ decimal_ℤ args.parallel ∷ []
          else [])
        ++ ((if skip_delete then codes "--skip-delete" ∷ [] else [])
            ++ (option_args (codes "--test") (given test_name)
                ++ (option_args (codes "--work-dir") (given work_dir) ++ args.extra_args))))

-- The environment of the process: `none` where it is inherited. A PATH that is not set raises a
-- KeyError.
abbrev pub with_venv : Text → Text → Dict Text → Option Text → Result (Option (Dict Text))
with_venv venv venv_bin environ none = raised key_error
with_venv venv venv_bin environ (some path) = ok (
    some
      (insert (codes "VIRTUAL_ENV") venv (insert (codes "PATH") (venv_bin ++ (58 ∷ path)) environ)))

-- A path is given as `str(Path(venv))` writes it, so the directory below it is a text with its name
-- behind a slash.
abbrev pub setup_from : {F : Type 0} → World F → Option Text → Result (Option (Dict Text))
setup_from world none = ok none
setup_from world (some venv) =
    let venv_bin = venv ++ codes "/bin" in
    if world.exists venv_bin
    then with_venv venv venv_bin world.environ (lookup (codes "PATH") world.environ)
    else ok none

unfoldable pub setup_test_environment : {F : Type 0} → World F → Args → Result (Option (Dict Text))
setup_test_environment world args = setup_from world (given args.venv)
