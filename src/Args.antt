-- ===== src/Args.antt =====
-- The arguments of scripts/auto-retry-tests.py, and `build_configuration_dict`.
pub mod CommandLine
pub mod Extra
use commons_operator.Prelude.{Bool, false, Option, none, List, [], ◌∷◌, Text, codes}
use commons_operator.Prelude.Int.{ℤ, pos}
use commons_operator.Json.{Value, boolean, int, str, obj, to_fields, of_optional, of_texts}

pub record Args : Type 0 where
  pub parallel : ℤ
  pub venv : Option Text
  pub extra_args : List Text
  pub attempts_parallel : ℤ
  pub attempts_serial : ℤ
  pub delete_failed_namespaces : Bool
  -- `str(Path(args.output_dir))`
  pub output_dir : Text
  pub resume : Option Text
  pub rerun_failed : Option Text

-- The defaults of the parser, `TestConstants.DEFAULT_PARALLEL_WORKERS` among them.
abbrev pub default_args : Args
default_args = record {
  parallel = pos 2;
  venv = none;
  extra_args = [];
  attempts_parallel = pos 1;
  attempts_serial = pos 2;
  delete_failed_namespaces = false;
  output_dir = codes "test-results";
  resume = none;
  rerun_failed = none;
}

unfoldable pub build_configuration_dict : {F : Type 0} → Args → Value F
build_configuration_dict args = obj (
    to_fields (
      (codes "parallel", int args.parallel)
      ∷ (codes "attempts_parallel", int args.attempts_parallel)
      ∷ (codes "attempts_serial", int args.attempts_serial)
      ∷ (codes "delete_failed_namespaces", boolean args.delete_failed_namespaces)
      ∷ (codes "venv", of_optional args.venv)
      ∷ (codes "extra_args", of_texts args.extra_args)
      ∷ (codes "output_dir", str args.output_dir)
      ∷ []))
