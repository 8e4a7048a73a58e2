-- ===== src/Results.antt =====
-- `TestResult` and `TestSummary` of scripts/auto-retry-tests.py, and their forms as dictionaries:
-- `asdict(result)` and `TestResult(**data)`.
pub mod RoundTrip
use commons_operator.Prelude.{
  ℕ, ◌≡◌, refl, Bool, true, false, not, ◌&&◌, ◌||◌, Option, none, some, List, [], ◌∷◌, map, Text,
  codes, text_eq, any, all, if◌then◌else◌,
}
use commons_operator.Prelude.Int.{ℤ, pos}
use commons_operator.Prelude.Dict.{Dict, contains}
use commons_operator.Float.{Float}
use commons_operator.Json.{
  Value, null, boolean, int, float, str, arr, obj, to_items, to_fields, ◌>>=◌, ◌>>◌, guard,
  traverse, as_dict, as_list, as_text, as_int, as_bool, as_float, as_optional, of_optional, require,
  get_or,
}

-- The values of `attempt_type` and of `final_status`.
abbrev pub initial : Text
initial = codes "initial"

abbrev pub parallel : Text
parallel = codes "parallel"

abbrev pub serial : Text
serial = codes "serial"

abbrev pub passed : Text
passed = codes "passed"

abbrev pub flaky : Text
flaky = codes "flaky"

abbrev pub failed : Text
failed = codes "failed"

pub record TestResult (F : Type 0) : Type 0 where
  pub test_name : Text
  pub attempt : ℤ
  pub attempt_type : Text
  pub success : Bool
  pub namespace : Option Text
  pub duration : F
  pub log_file : Option Text
  pub failed_step : Option Text

pub record TestSummary (F : Type 0) : Type 0 where
  pub test_name : Text
  pub initial_result : TestResult F
  pub retry_results : List (TestResult F)
  pub final_status : Text
  pub total_attempts : ℤ
  pub final_namespace : Option Text

abbrev pub result_keys : List Text
result_keys =
    codes "test_name"
    ∷ codes "attempt"
    ∷ codes "attempt_type"
    ∷ codes "success"
    ∷ codes "namespace"
    ∷ codes "duration"
    ∷ codes "log_file"
    ∷ codes "failed_step"
    ∷ []

module _ {F : Type 0} where
  -- `asdict(result)`
  unfoldable pub result_dict : TestResult F → Value F
  result_dict r = obj (
      to_fields (
        (codes "test_name", str r.test_name)
        ∷ (codes "attempt", int r.attempt)
        ∷ (codes "attempt_type", str r.attempt_type)
        ∷ (codes "success", boolean r.success)
        ∷ (codes "namespace", of_optional r.namespace)
        ∷ (codes "duration", float r.duration)
        ∷ (codes "log_file", of_optional r.log_file)
        ∷ (codes "failed_step", of_optional r.failed_step)
        ∷ []))

  -- `asdict(summary)`
  unfoldable pub summary_dict : TestSummary F → Value F
  unfolding result_dict
  summary_dict s = obj (
      to_fields (
        (codes "test_name", str s.test_name)
        ∷ (codes "initial_result", result_dict s.initial_result)
        ∷ (codes "retry_results", arr (to_items (map result_dict s.retry_results)))
        ∷ (codes "final_status", str s.final_status)
        ∷ (codes "total_attempts", int s.total_attempts)
        ∷ (codes "final_namespace", of_optional s.final_namespace)
        ∷ []))

module _ {F : Type 0} ⦃d : Float F⦄ where
  -- `TestResult(**data)`: an unexpected name raises, and so does a missing one without a default.
  unfoldable pub result_of : Value F → Option (TestResult F)
  result_of v = do
    data_ ← as_dict v
    guard (all (λ e. any (text_eq e.0) result_keys) data_)
    test_name ← require as_text (codes "test_name") data_
    attempt ← require as_int (codes "attempt") data_
    attempt_type ← require as_text (codes "attempt_type") data_
    success ← require as_bool (codes "success") data_
    namespace ← get_or as_optional none (codes "namespace") data_
    duration ← get_or as_float (d.of_ℕ 0) (codes "duration") data_
    log_file ← get_or as_optional none (codes "log_file") data_
    failed_step ← get_or as_optional none (codes "failed_step") data_
    some (record {
      test_name = test_name;
      attempt = attempt;
      attempt_type = attempt_type;
      success = success;
      namespace = namespace;
      duration = duration;
      log_file = log_file;
      failed_step = failed_step;
    })

  -- The summary that `load_state` builds from one entry of `test_summaries`.
  unfoldable pub summary_of : Value F → Option (TestSummary F)
  unfolding result_of
  summary_of v = do
    data_ ← as_dict v
    initial_result ← require result_of (codes "initial_result") data_
    results ← require as_list (codes "retry_results") data_
    retry_results ← traverse result_of results
    test_name ← require as_text (codes "test_name") data_
    final_status ← require as_text (codes "final_status") data_
    total_attempts ← require as_int (codes "total_attempts") data_
    final_namespace ← get_or as_optional none (codes "final_namespace") data_
    some (record {
      test_name = test_name;
      initial_result = initial_result;
      retry_results = retry_results;
      final_status = final_status;
      total_attempts = total_attempts;
      final_namespace = final_namespace;
    })
