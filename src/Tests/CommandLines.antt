-- ===== src/Tests/CommandLines.antt =====
-- What the two scripts read from command lines.
use commons_operator.Prelude.{
  ◌≡◌, refl, true, none, some, List, [], ◌∷◌, Text, codes, text_eq, is_space,
}
use commons_operator.Prelude.Int.{pos, negsuc}
use commons_operator.Args.{Args, default_args}
use commons_operator.Args.CommandLine
use commons_operator.Args.Extra.{parse_args-Gathered}
use commons_operator.Tests.Whole.{whole}
use commons_operator.Options.Number.{int_of}
use commons_operator.Options.{Parsed, parsed, exit}
use commons_operator.Options.Keeps.{Gathered}
use commons_operator.Launcher.Arguments.{cli_parse_operator_args, cli_log_level}

-- The command lines of scripts/auto-retry-tests.py, each as Python reads it.
abbrev read_args : List Text → Parsed Args
read_args argv = CommandLine.parse_args argv

options_are_no_extra_arguments :
    (read_args (codes "--extra-args" ∷ codes "--skip-release" ∷ []) ≡ exit 2)
    × (read_args (codes "--extra-args" ∷ codes "--" ∷ codes "--skip-release" ∷ []) ≡ exit 2)
    × (read_args (codes "--extra-args=--skip-release" ∷ codes "x" ∷ []) ≡ exit 2)
unfolding CommandLine.parse_args
options_are_no_extra_arguments = (refl, refl, refl)

extra_arguments :
    (read_args (codes "--extra-args=--skip-release" ∷ [])
      ≡ parsed (record default_args { extra_args = codes "--skip-release" ∷ [] }))
    × (read_args (codes "--extra-args" ∷ codes "--foo bar" ∷ codes "-3" ∷ codes "-" ∷ [])
        ≡ parsed
            (record default_args { extra_args = codes "--foo bar" ∷ codes "-3" ∷ codes "-" ∷ [] }))
unfolding CommandLine.parse_args
extra_arguments = (refl, refl)

numbers :
    (read_args (codes "--parallel" ∷ codes "-3" ∷ [])
      ≡ parsed (record default_args { parallel = negsuc 2 }))
    × (read_args (codes "--parallel= 1_0" ∷ [])
        ≡ parsed (record default_args { parallel = pos 10 }))
    × (read_args (codes "--parallel" ∷ codes "two" ∷ codes "--help" ∷ []) ≡ exit 2)
unfolding CommandLine.parse_args int_of is_space
numbers = (refl, refl, refl)

abbreviations :
    (read_args (codes "--del" ∷ [])
      ≡ parsed (record default_args { delete_failed_namespaces = true }))
    × (read_args (codes "--r=a" ∷ []) ≡ exit 2)
    × (read_args (codes "--res" ∷ codes "a" ∷ [])
        ≡ parsed (record default_args { resume = some (codes "a") }))
    × (read_args (codes "foo" ∷ codes "-h" ∷ []) ≡ exit 0)
    × (read_args (codes "--venv" ∷ []) ≡ exit 2)
unfolding CommandLine.parse_args
abbreviations = (refl, refl, refl, refl, refl)

operators :
    (cli_parse_operator_args (codes "airflow=1=2") ≡ some (codes "airflow", codes "1=2"))
    × (cli_parse_operator_args (codes "airflow") ≡ none)
    × (cli_log_level (codes "warning") ≡ some 30)
    × (cli_log_level (codes "INFO") ≡ none)
unfolding cli_parse_operator_args cli_log_level text_eq
operators = (refl, refl, refl, refl)

parse_args-Gathered_example : Gathered CommandLine.options (codes "a b" ∷ codes "c" ∷ [])
unfolding CommandLine.parse_args
parse_args-Gathered_example =
    parse_args-Gathered (codes "--extra" ∷ codes "a b" ∷ codes "c" ∷ codes "--delete" ∷ [])
      (record default_args {
        extra_args = codes "a b" ∷ codes "c" ∷ [];
        delete_failed_namespaces = true;
      })
      refl
