-- ===== src/Launcher/Arguments.antt =====
-- The command line of scripts/run-tests.
use commons_operator.Prelude.{
  ℕ, Bool, true, false, Option, none, some, List, [], ◌∷◌, ◌++◌, Text, codes, text_eq,
  if◌then◌else◌,
}
use commons_operator.Prelude.Int.{ℤ, pos}
use commons_operator.Prelude.Dict.{Dict}
use commons_operator.Options.Number.{int_of}
use commons_operator.Options.{Action, exits, sets, takes, split_eq, Parsed, parse}

pub record Namespace : Type 0 where
  pub skip_delete : Bool
  pub skip_tests : Bool
  pub skip_release : Bool
  pub parallel : ℤ
  pub operator : Dict Text
  pub skip_operator : List Text
  pub test : Option Text
  pub test_suite : Option Text
  pub log_level : ℕ
  pub namespace : Option Text
  pub work_dir : Text
  pub listener_class_preset : Option Text

abbrev pub default_namespace : Namespace
default_namespace = record {
  skip_delete = false;
  skip_tests = false;
  skip_release = false;
  parallel = pos 2;
  operator = [];
  skip_operator = [];
  test = none;
  test_suite = none;
  log_level = 20;
  namespace = none;
  work_dir = codes "tests/_work";
  listener_class_preset = none;
}

-- The operator and its version, or `none` where there is no `=`.
unfoldable pub cli_parse_operator_args : Text → Option (Text × Text)
cli_parse_operator_args args = elim (split_eq args).1 [
  | none ↦ none
  | some version ↦ some ((split_eq args).0, version)
]

unfoldable pub cli_log_level : Text → Option ℕ
cli_log_level cli_arg =
    if text_eq cli_arg (codes "debug")
    then some 10
    else if text_eq cli_arg (codes "info")
    then some 20
    else if text_eq cli_arg (codes "error")
    then some 40
    else if text_eq cli_arg (codes "warning")
    then some 30
    else if text_eq cli_arg (codes "critical")
    then some 50
    else none

-- What an option with a value stores, if its type takes the value.
abbrev pub stored : {V : Type 0} → Option V → (V → Namespace) → Option Namespace
stored none f = none
stored (some v) f = some (f v)

abbrev pub store_parallel : Text → Namespace → Option Namespace
store_parallel v n = stored (int_of v) (λ i. record n { parallel = i })

abbrev pub store_test : Text → Namespace → Option Namespace
store_test v n = some (record n { test = some v })

abbrev pub store_work_dir : Text → Namespace → Option Namespace
store_work_dir v n = some (record n { work_dir = v })

-- The options, `-h` and `--help` of every parser among them.
abbrev pub options : Dict (Action Namespace)
options =
    (codes "-h", exits)
    ∷ (codes "--help", exits)
    ∷ (codes "--version", exits)
    ∷ (codes "--skip-delete", sets (λ n. record n { skip_delete = true }))
    ∷ (codes "--skip-tests", sets (λ n. record n { skip_tests = true }))
    ∷ (codes "--skip-release", sets (λ n. record n { skip_release = true }))
    ∷ (codes "--parallel", takes store_parallel)
    ∷ (
      codes "--operator",
      takes (λ v n.
          stored (cli_parse_operator_args v) (λ o. record n { operator = n.operator ++ o ∷ [] })),
    )
    ∷ (
      codes "--skip-operator",
      takes (λ v n. some (record n { skip_operator = n.skip_operator ++ v ∷ [] })),
    )
    ∷ (codes "--test", takes store_test)
    ∷ (codes "--test-suite", takes (λ v n. some (record n { test_suite = some v })))
    ∷ (
      codes "--log-level",
      takes (λ v n. stored (cli_log_level v) (λ l. record n { log_level = l })),
    )
    ∷ (codes "--namespace", takes (λ v n. some (record n { namespace = some v })))
    ∷ (codes "--work-dir", takes store_work_dir)
    ∷ (
      codes "--listener-class-preset",
      takes (λ v n. some (record n { listener_class_preset = some v })),
    )
    ∷ []

unfoldable pub parse_args : List Text → Parsed Namespace
unfolding parse cli_parse_operator_args cli_log_level int_of
parse_args argv = parse options default_namespace argv
