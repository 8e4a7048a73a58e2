-- ===== src/Args/CommandLine.antt =====
-- The command line that `main` of scripts/auto-retry-tests.py reads.
use commons_operator.Prelude.{true, Option, none, some, List, [], ◌∷◌, Text, codes}
use commons_operator.Prelude.Dict.{Dict}
use commons_operator.Options.Number.{int_of}
use commons_operator.Options.{Action, exits, sets, takes, gathers, Parsed, parse}
use commons_operator.Args.{Args, default_args}

abbrev pub stored : {V : Type 0} → Option V → (V → Args) → Option Args
stored none f = none
stored (some v) f = some (f v)

-- The options, with `-h` and `--help` before them.
abbrev pub options : Dict (Action Args)
options =
    (codes "-h", exits)
    ∷ (codes "--help", exits)
    ∷ (codes "--parallel", takes (λ v n. stored (int_of v) (λ i. record n { parallel = i })))
    ∷ (codes "--venv", takes (λ v n. some (record n { venv = some v })))
    ∷ (codes "--extra-args", gathers (λ vs n. record n { extra_args = vs }))
    ∷ (
      codes "--attempts-parallel",
      takes (λ v n. stored (int_of v) (λ i. record n { attempts_parallel = i })),
    )
    ∷ (
      codes "--attempts-serial",
      takes (λ v n. stored (int_of v) (λ i. record n { attempts_serial = i })),
    )
    ∷ (codes "--delete-failed-namespaces", sets (λ n. record n { delete_failed_namespaces = true }))
    ∷ (codes "--output-dir", takes (λ v n. some (record n { output_dir = v })))
    ∷ (codes "--resume", takes (λ v n. some (record n { resume = some v })))
    ∷ (codes "--rerun-failed", takes (λ v n. some (record n { rerun_failed = some v })))
    ∷ []

-- `parser.parse_args()`
unfoldable pub parse_args : List Text → Parsed Args
unfolding parse int_of
parse_args argv = parse options default_args argv
