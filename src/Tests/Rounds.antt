-- ===== src/Tests/Rounds.antt =====
-- Two tests that are retried in parallel.
use commons_operator.Prelude.{ℕ, ◌≤◌, ◌≡◌, refl, true, List, [], ◌∷◌, arith, codes, text_eq, length}
use commons_operator.Prelude.Dict.{Dict}
use commons_operator.Exec.{ok}
use commons_operator.Args.{default_args}
use commons_operator.Results.{TestResult}
use commons_operator.Runner.{Runner}
use commons_operator.Runner.Serial.{results_for}
use commons_operator.Runner.Serial.Attempts.{OnlyLastPasses}
use commons_operator.Runner.Parallel.{retry_tests_in_parallel}
use commons_operator.Runner.Parallel.Rounds.{occurrences, AreRounds}
use commons_operator.Runner.Parallel.Attempts.{retry_tests_in_parallel_total}
use commons_operator.Prelude.Int.{pos}
use commons_operator.Tests.Whole.{whole}
use commons_operator.Tests.Samples.{smoke, logging, world, runner}

once : occurrences smoke (smoke ∷ logging ∷ []) ≤ 1
unfolding text_eq
once = omega arith

retry_tests_in_parallel_total_example :
    (out : Dict (List (TestResult ℕ))) × (s' : Runner ℕ) × (retry_tests_in_parallel world
        default_args
        (smoke ∷ logging ∷ [])
        (pos 2)
        true
        runner
      ≡ (ok out, s'))
    × AreRounds smoke 1 3 (results_for smoke out)
    × OnlyLastPasses (results_for smoke out)
    × (length (results_for smoke out) ≤ 2)
retry_tests_in_parallel_total_example =
    retry_tests_in_parallel_total world default_args 115 (codes "moke_openshift-false")
      (λ calls names t. refl) refl true (smoke ∷ logging ∷ []) once 2 runner
