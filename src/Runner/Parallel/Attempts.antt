-- ===== src/Runner/Parallel/Attempts.antt =====
-- What parallel retries have done: the attempts at each test, in order, and where they end.
use commons_operator.Prelude.{
  ℕ, zero, suc, ◌+◌, ◌≤◌, ◌≡◌, refl, sym, ap, subst, ◌∙◌, inl, inr, Bool, true, false, not, ◌&&◌,
  List, [], ◌∷◌, arith, Text, length, ◌==◌, Bool-cases,
}
use commons_operator.Prelude.Int.{pos, leb_ℤ}
use commons_operator.Prelude.Dict.{Dict}
use commons_operator.Float.{Float}
use commons_operator.Exec.{Result, ok, raised, value_error}
use commons_operator.Args.{Args}
use commons_operator.World.{World}
use commons_operator.Results.{TestResult}
use commons_operator.Runner.{Runner}
use commons_operator.Runner.Serial.{any_success, results_for}
use commons_operator.Runner.Serial.Attempts.{OnlyLastPasses}
use commons_operator.Runner.Parallel.{
  complete_all, parallel_rounds, retry_tests_in_parallel, no_results, tests_to_retry,
}
use commons_operator.Runner.Parallel.OneRound.{complete_others, complete_once}
use commons_operator.Runner.Parallel.Rounds.{
  occurrences, occurrences-keep_le, occurrences-keep_dropped, AreRounds, length-AreRounds,
  IsRetried, IsRetried-later, results_for-no_results,
}

module _ {F : Type 0} ⦃d : Float F⦄ (world : World F) (args : Args) (c : ℕ) (rest : Text) where
  -- The names that a round is made for are completed, each as often as it is there.
  abbrev pub CompletesEach : Type 0
  CompletesEach =
      (calls : ℕ) (names : List Text) (t : Text)
      → occurrences t (world.completion calls names) ≡ occurrences t names

  module _ (each : CompletesEach) (parallel_limit : leb_ℤ args.parallel (pos 0) ≡ false)
      (serial_follows : Bool) (names : List Text) (once : occurrences (c ∷ rest) names ≤ 1) where
    -- The rounds returned, with the results of the test up to below this round.
    abbrev EndsBelow : ℕ → Result (Dict (List (TestResult F))) × Runner F → Type 0
    EndsBelow k p =
        (out : Dict (List (TestResult F))) × (s' : Runner F) × (p ≡ (ok out, s'))
        × IsRetried (c ∷ rest) k (results_for (c ∷ rest) out)

    -- A round makes one attempt at the test if it has not passed, and none if it has.
    round_retries :
        (skip_delete : Bool) (calls n : ℕ) (retried : List Text)
        (all_results : Dict (List (TestResult F))) (s : Runner F)
        → tests_to_retry all_results names ≡ retried
        → IsRetried (c ∷ rest) n (results_for (c ∷ rest) all_results)
        → IsRetried (c ∷ rest) (suc n) (
            results_for
              (c ∷ rest)
              (complete_all world args skip_delete n
                (world.completion calls retried)
                all_results
                s).0)
    unfolding tests_to_retry
    round_retries skip_delete calls n retried all_results s e h =
        let failing : Text → Bool = λ t. not (any_success (results_for t all_results)) in
        let same = each calls retried (c ∷ rest) ∙ ap (occurrences (c ∷ rest)) (sym e) in
        elim (Bool-cases (any_success (results_for (c ∷ rest) all_results))) [
          | inl passed ↦
              let none_kept = occurrences-keep_dropped failing (c ∷ rest) names (ap not passed) in
              subst (IsRetried (c ∷ rest) (suc n))
                (sym (
                  complete_others world args c rest skip_delete n _ all_results s
                    (same ∙ none_kept)))
                (IsRetried-later (c ∷ rest) n (suc n) _ (omega arith) h)
          | inr fails ↦
              let few = occurrences-keep_le failing (c ∷ rest) names in
              complete_once world args c rest skip_delete n _ all_results s (omega arith) fails h
        ]

    -- The loop from a round on, by the tests to retry and by whether there is no worker.
    module _ (left n max : ℕ) (all_results : Dict (List (TestResult F))) (s : Runner F) where
      abbrev skips : Bool
      skips = not args.delete_failed_namespaces && not serial_follows && (n == max)

      abbrev round : List Text → Dict (List (TestResult F)) × Runner F
      round retried =
          complete_all world args skips n (world.completion s.shell.calls retried) all_results s

      abbrev after_round : List Text → Runner F
      after_round retried = record (round retried).1 { parallel_attempts_done = pos n }

      abbrev rounds_for : List Text → Bool → Result (Dict (List (TestResult F))) × Runner F
      rounds_for retried no_worker = elim retried [
        | [] ↦ (ok all_results, s)
        | t ∷ more ↦ elim no_worker [
          | true ↦ (raised value_error, s)
          | false ↦
              parallel_rounds world args serial_follows names left (n + 1) max (round (t ∷ more)).0
                (after_round (t ∷ more))
        ]
      ]

      rounds_for_ends :
          (retried : List Text) (no_worker : Bool)
          → tests_to_retry all_results names ≡ retried
          → no_worker ≡ false
          → IsRetried (c ∷ rest) n (results_for (c ∷ rest) all_results)
          → ((found : Dict (List (TestResult F))) (t : Runner F)
              → IsRetried (c ∷ rest) (n + 1) (results_for (c ∷ rest) found)
              → EndsBelow
                  (n + 1 + left)
                  (parallel_rounds world args serial_follows names left (n + 1) max found t))
          → EndsBelow (n + suc left) (rounds_for retried no_worker)
      rounds_for_ends [] no_worker e limit h loop =
          (all_results, s, refl, IsRetried-later (c ∷ rest) n (n + suc left) _ (omega arith) h)
      rounds_for_ends (t ∷ more) true e limit h loop = cc limit
      rounds_for_ends (t ∷ more) false e limit h loop =
          subst (λ k. EndsBelow k (rounds_for (t ∷ more) false)) (omega arith)
            (loop (round (t ∷ more)).0 (after_round (t ∷ more)) (
              subst (λ k. IsRetried (c ∷ rest) k (results_for (c ∷ rest) (round (t ∷ more)).0))
                (omega arith) (round_retries skips s.shell.calls n (t ∷ more) all_results s e h)))

    parallel_rounds_ends :
        (left n max : ℕ) (all_results : Dict (List (TestResult F))) (s : Runner F)
        → IsRetried (c ∷ rest) n (results_for (c ∷ rest) all_results)
        → EndsBelow
            (n + left)
            (parallel_rounds world args serial_follows names left n max all_results s)
    unfolding parallel_rounds
    parallel_rounds_ends zero n max all_results s h = (
      all_results,
      s,
      refl,
      subst (λ k. IsRetried (c ∷ rest) k (results_for (c ∷ rest) all_results)) (omega arith) h,
    )
    parallel_rounds_ends (suc left) n max all_results s h =
        rounds_for_ends left n max all_results s (tests_to_retry all_results names)
          (leb_ℤ args.parallel (pos 0)) refl parallel_limit h
          (λ found t k. parallel_rounds_ends left (n + 1) max found t k)

    start_is : IsRetried (c ∷ rest) 1 (results_for {F = F} (c ∷ rest) (no_results names))
    start_is =
        subst (IsRetried (c ∷ rest) 1) (sym (results_for-no_results (c ∷ rest) names))
          (omega arith, tt)

    retry_ends :
        (attempts : ℕ) (s : Runner F)
        → EndsBelow
            (suc attempts)
            (retry_tests_in_parallel world args names (pos attempts) serial_follows s)
    unfolding retry_tests_in_parallel
    retry_ends zero s = (no_results names, s, refl, start_is)
    retry_ends (suc attempts) s =
        let some_left : leb_ℤ (pos (suc attempts)) (pos 0) ≡ false = ground arith in
        let rounds =
          parallel_rounds world args serial_follows names (suc attempts) 1 (suc attempts)
            (no_results names) s in
        let below : EndsBelow (suc (suc attempts)) rounds =
          subst (λ k. EndsBelow k rounds) (omega arith)
            (parallel_rounds_ends (suc attempts) 1 (suc attempts) (no_results names) s start_is) in
        rw some_left below

    -- Where a round completes each of its tests, as often as it is there, at least one test runs at a
    -- time and the test is named once: the parallel retries return, whatever happens to single runs.
    -- The results of the test are of different rounds, in their order, none comes after one that
    -- passed, and there are at most as many as attempts are allowed.
    pub retry_tests_in_parallel_total :
        (attempts : ℕ) (s : Runner F)
        → (out : Dict (List (TestResult F))) × (s' : Runner F) × (retry_tests_in_parallel world args
              names
              (pos attempts)
              serial_follows
              s
            ≡ (ok out, s'))
          × AreRounds (c ∷ rest) 1 (suc attempts) (results_for (c ∷ rest) out)
          × OnlyLastPasses (results_for (c ∷ rest) out)
          × (length (results_for (c ∷ rest) out) ≤ attempts)
    retry_tests_in_parallel_total attempts s =
        let (out, s', ends, (rounds, only)) = retry_ends attempts s in
        let few =
          length-AreRounds (c ∷ rest) 1 (suc attempts) (results_for (c ∷ rest) out) rounds in
        (out, s', ends, rounds, only, omega arith)
