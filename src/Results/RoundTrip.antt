-- ===== src/Results/RoundTrip.antt =====
-- A result or a summary that is written as a dictionary is read back as it was.
use commons_operator.Prelude.{◌≡◌, some, text_eq, map}
use commons_operator.Prelude.Dict.{lookup}
use commons_operator.Float.{Float}
use commons_operator.Json.{
  require, get_or, as_optional-of_optional, of_items-to_items, traverse-map,
}
use commons_operator.Results.{
  TestResult, TestSummary, result_dict, summary_dict, result_of, summary_of,
}

module _ {F : Type 0} ⦃d : Float F⦄ where
  -- Every result is read back from its dictionary as it was.
  pub result_of-result_dict : (r : TestResult F) → result_of (result_dict r) ≡ some r
  unfolding result_of result_dict lookup text_eq require get_or
  result_of-result_dict r = cc (
    as_optional-of_optional F r.namespace,
    as_optional-of_optional F r.log_file,
    as_optional-of_optional F r.failed_step,
  )

  -- Every summary is read back from its dictionary as it was, with its initial result and its retries.
  pub summary_of-summary_dict : (s : TestSummary F) → summary_of (summary_dict s) ≡ some s
  unfolding summary_of summary_dict lookup text_eq require get_or
  summary_of-summary_dict s = cc (
    result_of-result_dict s.initial_result,
    of_items-to_items (map result_dict s.retry_results),
    traverse-map result_of result_dict result_of-result_dict s.retry_results,
    as_optional-of_optional F s.final_namespace,
  )
