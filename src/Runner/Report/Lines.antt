-- ===== src/Runner/Report/Lines.antt =====
-- Lines of the text report that no run time stands in.
use commons_operator.Prelude.{
  ℕ, suc, zero, Bool, true, false, Option, none, some, List, [], ◌∷◌, ◌++◌, Text, codes, take,
}
use commons_operator.Prelude.Int.{pos, decimal_ℤ}
use commons_operator.Args.{Args}
use commons_operator.Executor.Command.{given}

-- `c * n`
abbrev pub replicate : ℕ → ℕ → Text
replicate zero c = []
replicate (suc n) c = c ∷ replicate n c

abbrev pub rule : ℕ → Text
rule n = replicate n 45

abbrev pub decimal_of : ℕ → Text
decimal_of n = decimal_ℤ (pos n)

abbrev pub shown_bool : Bool → Text
shown_bool true = codes "True"
shown_bool false = codes "False"

abbrev pub or_none : Option Text → Text
or_none none = codes "None"
or_none (some text) = text

abbrev pub namespace_lines : Option Text → List Text
namespace_lines none = []
namespace_lines (some namespace) = (codes "    Namespace kept for debugging: " ++ namespace) ∷ []

abbrev pub error_lines : Option Text → List Text
error_lines none = []
error_lines (some error) = (codes "    Last error: " ++ (take 100 error ++ codes "...")) ∷ []

abbrev pub configuration_lines : Args → List Text
configuration_lines args =
    codes "CONFIGURATION"
    ∷ rule 46
    ∷ (codes "Parallel: " ++ decimal_ℤ args.parallel)
    ∷ (codes "Parallel retry attempts: " ++ decimal_ℤ args.attempts_parallel)
    ∷ (codes "Serial retry attempts: " ++ decimal_ℤ args.attempts_serial)
    ∷ (codes "Delete failed namespaces: " ++ shown_bool args.delete_failed_namespaces)
    ∷ (codes "Virtualenv: " ++ or_none (given args.venv))
    ∷ []
    ∷ []

abbrev pub no_history_line : Text → List Text
no_history_line test_name = (codes "  " ++ (test_name ++ codes " - No runtime history")) ∷ []
