-- ===== src/Runner/Parallel/OneRound.antt =====
-- One round of parallel retries: what it does to the results of one test.
use commons_operator.Prelude.{
  ℕ, suc, ◌≤◌, ◌≡◌, ◌≢◌, refl, sym, ap, subst, ◌∙◌, inl, inr, Bool, false, some, List, [], ◌∷◌,
  arith, Text, text_eq-cases,
}
use commons_operator.Prelude.Int.{pos}
use commons_operator.Prelude.Dict.{Dict}
use commons_operator.Float.{Float}
use commons_operator.Exec.{Result, ok, raised}
use commons_operator.Args.{Args}
use commons_operator.World.{World}
use commons_operator.Results.{TestResult, parallel}
use commons_operator.Executor.Run.{run_single_test_suite, result_of_run}
use commons_operator.Executor.Run.Outcome.{OnOk, run_outcome}
use commons_operator.Runner.{Runner, in_shell}
use commons_operator.Runner.Serial.{any_success, results_for}
use commons_operator.Runner.Parallel.{collect, complete_all}
use commons_operator.Runner.Parallel.Rounds.{
  occurrences, IsParallel, IsRetried, IsRetried-later, IsRetried-append, results_for-insert_self,
  results_for-insert_ne,
}

OnOk-map :
    {B : Type 0} (P Q : B → Type 0) (r : Result B) → ((b : B) → P b → Q b) → OnOk P r → OnOk Q r
OnOk-map P Q (ok b) f h = f b h
OnOk-map P Q (raised e) f h = tt

module _ {F : Type 0} ⦃d : Float F⦄ (world : World F) (args : Args) (c : ℕ) (rest : Text) where
  collect_other :
      (n : Text) (r : Result (TestResult F)) (all_results : Dict (List (TestResult F)))
      (s : Runner F)
      → n ≢ (c ∷ rest)
      → results_for (c ∷ rest) (collect n r all_results s).0 ≡ results_for (c ∷ rest) all_results
  collect_other n (raised e) all_results s other = refl
  collect_other n (ok result) all_results s other =
      results_for-insert_ne n (c ∷ rest) _ all_results other

  collect_this :
      (n : ℕ) (r : Result (TestResult F)) (all_results : Dict (List (TestResult F))) (s : Runner F)
      → IsRetried (c ∷ rest) n (results_for (c ∷ rest) all_results)
      → any_success (results_for (c ∷ rest) all_results) ≡ false
      → OnOk (IsParallel (c ∷ rest) n) r
      → IsRetried (c ∷ rest) (suc n) (results_for (c ∷ rest) (collect (c ∷ rest) r all_results s).0)
  collect_this n (raised e) all_results s h fails is =
      IsRetried-later (c ∷ rest) n (suc n) _ (omega arith) h
  collect_this n (ok result) all_results s h fails is =
      subst (IsRetried (c ∷ rest) (suc n)) (sym (results_for-insert_self (c ∷ rest) _ all_results))
        (IsRetried-append (c ∷ rest) n (results_for (c ∷ rest) all_results) result h fails is)

  parallel_run :
      (skip_delete : Bool) (n : ℕ) (s : Runner F)
      → OnOk
          (IsParallel (c ∷ rest) n)
          (in_shell
            (run_single_test_suite world args (some (c ∷ rest)) skip_delete (pos n) parallel)
            s).0
  unfolding result_of_run
  parallel_run skip_delete n s =
      OnOk-map _ (IsParallel (c ∷ rest) n) _
        (λ r e. (ap (λ o. o.test_name) e, ap (λ o. o.attempt) e, ap (λ o. o.attempt_type) e))
        (run_outcome world args (some (c ∷ rest)) skip_delete (pos n) parallel s.shell)

  module _ (skip_delete : Bool) (n : ℕ) where
    pub complete_others :
        (order : List Text) (all_results : Dict (List (TestResult F))) (s : Runner F)
        → occurrences (c ∷ rest) order ≡ 0
        → results_for (c ∷ rest) (complete_all world args skip_delete n order all_results s).0
          ≡ results_for (c ∷ rest) all_results
    unfolding complete_all
    complete_others [] all_results s h = refl
    complete_others (t ∷ order) all_results s h = elim (text_eq-cases t (c ∷ rest)) [
      | inl (e, same) ↦ absurd (ground arith)
      | inr (e, other) ↦
          let m =
            in_shell (run_single_test_suite world args (some t) skip_delete (pos n) parallel) s in
          let next = collect t m.0 all_results m.1 in
          complete_others order next.0 next.1 (ground arith)
          ∙ collect_other t m.0 all_results m.1 other
    ]

    complete_this :
        (t : Text) (all_results : Dict (List (TestResult F))) (s : Runner F)
        → t ≡ (c ∷ rest)
        → any_success (results_for (c ∷ rest) all_results) ≡ false
        → IsRetried (c ∷ rest) n (results_for (c ∷ rest) all_results)
        → IsRetried (c ∷ rest) (suc n) (
            results_for
              (c ∷ rest)
              (collect t
                (in_shell
                  (run_single_test_suite world args (some t) skip_delete (pos n) parallel)
                  s).0
                all_results
                (in_shell
                  (run_single_test_suite world args (some t) skip_delete (pos n) parallel)
                  s).1).0)
    complete_this t all_results s same fails h =
        subst
          (λ t. IsRetried (c ∷ rest) (suc n) (
            results_for (c ∷ rest)
              (collect t
                (in_shell (run_single_test_suite world args (some t) skip_delete (pos n) parallel)
                  s).0
                all_results
                (in_shell (run_single_test_suite world args (some t) skip_delete (pos n) parallel)
                  s).1).0))
          (sym same) (collect_this n _ all_results _ h fails (parallel_run skip_delete n s))

    pub complete_once :
        (order : List Text) (all_results : Dict (List (TestResult F))) (s : Runner F)
        → occurrences (c ∷ rest) order ≤ 1
        → any_success (results_for (c ∷ rest) all_results) ≡ false
        → IsRetried (c ∷ rest) n (results_for (c ∷ rest) all_results)
        → IsRetried
            (c ∷ rest)
            (suc n)
            (results_for (c ∷ rest) (complete_all world args skip_delete n order all_results s).0)
    unfolding complete_all
    complete_once [] all_results s few fails h =
        IsRetried-later (c ∷ rest) n (suc n) _ (omega arith) h
    complete_once (t ∷ order) all_results s few fails h = elim (text_eq-cases t (c ∷ rest)) [
      | inl (e, same) ↦
          let m =
            in_shell (run_single_test_suite world args (some t) skip_delete (pos n) parallel) s in
          let next = collect t m.0 all_results m.1 in
          subst (IsRetried (c ∷ rest) (suc n))
            (sym (complete_others order next.0 next.1 (ground arith)))
            (complete_this t all_results s same fails h)
      | inr (e, other) ↦
          let m =
            in_shell (run_single_test_suite world args (some t) skip_delete (pos n) parallel) s in
          let next = collect t m.0 all_results m.1 in
          let kept = collect_other t m.0 all_results m.1 other in
          complete_once order next.0 next.1 (ground arith) (ap any_success kept ∙ fails)
            (subst (IsRetried (c ∷ rest) n) (sym kept) h)
    ]
