-- ===== src/Runner/State/Codec.antt =====
-- The dictionary that `build_state_data` makes of a runner, and the readers of its entries.
use commons_operator.Prelude.{Option, some, List, [], ◌∷◌, map, Text, codes}
use commons_operator.Prelude.Int.{ℤ}
use commons_operator.Prelude.Dict.{Dict}
use commons_operator.Float.{Float}
use commons_operator.Json.{
  Value, int, str, arr, obj, to_items, to_fields, ◌>>=◌, traverse, as_dict, as_list, as_int,
  of_optional, of_texts, require, get_or,
}
use commons_operator.Args.{Args, build_configuration_dict}
use commons_operator.Results.{
  TestResult, TestSummary, result_dict, summary_dict, result_of, summary_of,
}
use commons_operator.Runner.{Runner}

module _ {F : Type 0} where
  abbrev pub of_ints : Dict ℤ → Value F
  of_ints d = obj (to_fields (map (λ e. (e.0, int e.1)) d))

  abbrev pub of_summaries : Dict (TestSummary F) → Value F
  of_summaries d = obj (to_fields (map (λ e. (e.0, summary_dict e.1)) d))

  abbrev pub of_results : List (TestResult F) → Value F
  of_results rs = arr (to_items (map result_dict rs))

  unfoldable pub build_state_data : Args → Runner F → Value F
  unfolding build_configuration_dict
  build_state_data args s = obj (
      to_fields (
        (codes "start_time", str s.start_time)
        ∷ (codes "failed_tests", of_texts s.failed_tests)
        ∷ (codes "parallel_attempts_done", int s.parallel_attempts_done)
        ∷ (codes "serial_attempts_done", of_ints s.serial_attempts_done)
        ∷ (codes "initial_result_log", of_optional s.initial_result_log)
        ∷ (codes "configuration", build_configuration_dict args)
        ∷ (codes "test_summaries", of_summaries s.test_summaries)
        ∷ (codes "all_results", of_results s.results)
        ∷ []))

  -- A dictionary of numbers.
  unfoldable pub ints_from : Dict (Value F) → Option (Dict ℤ)
  ints_from [] = some []
  ints_from ((k, v) ∷ d) = do n ← as_int v; rest ← ints_from d; some ((k, n) ∷ rest)

  unfoldable pub ints_of : Value F → Option (Dict ℤ)
  unfolding ints_from
  ints_of v = do entries ← as_dict v; ints_from entries

  abbrev pub item : {A : Type 0} → (Value F → Option A) → Text → Dict (Value F) → Option A
  item = require

  abbrev pub item_or : {A : Type 0} → (Value F → Option A) → A → Text → Dict (Value F) → Option A
  item_or = get_or

module _ {F : Type 0} ⦃d : Float F⦄ where
  abbrev pub summary_entries : Value F → Option (TestSummary F)
  summary_entries = summary_of

  unfoldable pub results_of : Value F → Option (List (TestResult F))
  results_of v = do vs ← as_list v; traverse result_of vs
