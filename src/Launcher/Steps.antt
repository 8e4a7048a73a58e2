-- ===== src/Launcher/Steps.antt =====
-- The steps of scripts/run-tests: `have_requirements`, `maybe_install_release`, `gen_tests`,
-- `run_tests` and `ensure_namespace_exists`.
pub mod Keeps
use commons_operator.Prelude.{
  ℕ, Bool, true, false, not, ◌&&◌, ◌||◌, Option, none, some, List, [], ◌∷◌, ◌++◌, map, Text, codes,
  is_in, all, leb, if◌then◌else◌, ◌+◌,
}
use commons_operator.Prelude.Int.{ℤ, is_zero, decimal_ℤ}
use commons_operator.Exec.{Exec, raise, pure, test_runner, ◌>>=◌, ◌>>◌}
use commons_operator.Executor.Command.{given, is_given, option_args}
use commons_operator.Launcher.{World, Command, Completed, Session, start, decode}

-- `s.lower()`, as far as it leads to letters of ASCII: no other letter has one of those that are
-- looked for as its small letter.
abbrev pub lower : Text → Text
lower s = map (λ c. if leb 65 c && leb c 90 then c + 32 else c) s

abbrev pub requirements : List Text
requirements = codes "beku" ∷ codes "stackablectl" ∷ codes "kubectl" ∷ codes "kubectl-kuttl" ∷ []

unfoldable pub have_requirements : World → Exec Session (Unit {0})
have_requirements world = if all world.which requirements then pure tt else raise test_runner

abbrev pub here : List Text → Command
here words = record { words = words; cwd = none }

-- Whether `check=True` lets the program pass.
abbrev pub passes_check : Completed → Bool
passes_check completed = is_zero completed.returncode

abbrev pub stackablectl_cmd : Text → Option Text → Command
stackablectl_cmd release_file preset = here (
    codes "stackablectl"
    ∷ codes "release"
    ∷ codes "install"
    ∷ codes "--release-file"
    ∷ release_file
    ∷ (option_args (codes "--listener-class-preset") (given preset) ++ codes "tests" ∷ []))

-- Where `stackablectl` ends with 0 too, an error in its output counts.
abbrev pub fail_if : Bool → Exec Session (Unit {0})
fail_if failed = if failed then raise test_runner else pure tt

unfoldable pub maybe_install_release : World → Bool → Text → Option Text → Exec Session (Unit {0})
maybe_install_release world true release_file preset = pure tt
maybe_install_release world false release_file preset = do
  completed ← start world (stackablectl_cmd release_file preset)
  stderr ← decode completed.stderr
  fail_if (not (passes_check completed) || is_in (codes "error") (lower stderr))

abbrev pub beku_cmd : Option Text → Option Text → Text → Command
beku_cmd test_suite namespace work_dir = here (
    codes "beku"
    ∷ codes "--test_definition"
    ∷ codes "tests/test-definition.yaml"
    ∷ codes "--kuttl_test"
    ∷ codes "tests/kuttl-test.yaml.jinja2"
    ∷ codes "--template_dir"
    ∷ codes "tests/templates/kuttl"
    ∷ codes "--output_dir"
    ∷ work_dir
    ∷ (option_args (codes "--suite") (given test_suite)
        ++ option_args (codes "--namespace") (given namespace)))

unfoldable pub gen_tests : World → Option Text → Option Text → Text → Exec Session (Unit {0})
gen_tests world test_suite namespace work_dir = do
  completed ← start world (beku_cmd test_suite namespace work_dir)
  fail_if (not (passes_check completed))

abbrev pub check_ns_cmd : Text → Command
check_ns_cmd namespace = here (codes "kubectl" ∷ codes "get" ∷ codes "namespace" ∷ namespace ∷ [])

abbrev pub create_ns_cmd : Text → Command
create_ns_cmd namespace =
    here (codes "kubectl" ∷ codes "create" ∷ codes "namespace" ∷ namespace ∷ [])

-- What a refused creation says where the namespace is, or may be, there.
abbrev pub tolerated : Text → Bool
tolerated stderr = is_in (codes "already exists") stderr || is_in (codes "forbidden") (lower stderr)

abbrev pub create_namespace : World → Text → Exec Session (Unit {0})
create_namespace world namespace = do
  completed ← start world (create_ns_cmd namespace)
  (if passes_check completed
      then pure tt
      else do stderr ← decode completed.stderr; fail_if (not (tolerated stderr)))

unfoldable pub ensure_namespace_exists : World → Text → Exec Session (Unit {0})
ensure_namespace_exists world namespace = do
  completed ← start world (check_ns_cmd namespace)
  (if passes_check completed then pure tt else create_namespace world namespace)

abbrev pub kuttl_cmd : Option Text → ℤ → Option Text → Bool → Text → Command
kuttl_cmd test parallel namespace skip_delete work_dir = record {
  words =
      codes "kubectl-kuttl"
      ∷ codes "test"
      ∷ (option_args (codes "--test") (given test)
          ++ ((if is_zero parallel then [] else codes "--parallel" ∷ decimal_ℤ parallel ∷ [])
              ++ ((if skip_delete then codes "--skip-delete" ∷ [] else [])
                  ++ option_args (codes "--namespace") (given namespace))));
  cwd = some work_dir;
}

-- kuttl does not create the namespace.
abbrev pub prepare_namespace : World → Option Text → Exec Session (Unit {0})
prepare_namespace world none = pure tt
prepare_namespace world (some namespace) = ensure_namespace_exists world namespace

unfoldable pub run_tests :
    World → Option Text → ℤ → Option Text → Bool → Text → Exec Session (Unit {0})
unfolding ensure_namespace_exists
run_tests world test parallel namespace skip_delete work_dir = do
  prepare_namespace world (given namespace)
  completed ← start world (kuttl_cmd test parallel namespace skip_delete work_dir)
  fail_if (not (passes_check completed))
