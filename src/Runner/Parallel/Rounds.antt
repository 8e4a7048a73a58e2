-- ===== src/Runner/Parallel/Rounds.antt =====
-- The results of one test in the rounds of parallel retries.
use commons_operator.Prelude.{
  ℕ, suc, ◌+◌, ◌≤◌, ◌≡◌, ◌≢◌, refl, ap, subst, ◌∙◌, inl, inr, Bool, true, false, Option, none, some,
  List, [], ◌∷◌, ◌++◌, arith, Text, text_eq, text_eq_iff, text_eq-cases, keep, length,
  if◌then◌else◌,
}
use commons_operator.Prelude.Int.{pos}
use commons_operator.Prelude.Dict.{Dict, lookup, insert, lookup-insert_self, lookup-insert_ne}
use commons_operator.Float.{Float}
use commons_operator.Results.{TestResult, parallel}
use commons_operator.Runner.Serial.{any_success, results_for}
use commons_operator.Runner.Serial.Attempts.{OnlyLastPasses}
use commons_operator.Runner.Parallel.{no_results, no_results_onto}

-- How often a name stands in a list.
abbrev pub occurrences : Text → List Text → ℕ
occurrences name [] = 0
occurrences name (n ∷ names) =
    let rest = occurrences name names in if text_eq n name then suc rest else rest

module _ (p : Text → Bool) (name : Text) where
  one_kept :
      (b : Bool) (n : Text) (kept : List Text)
      → n ≢ name
      → occurrences name (if b then n ∷ kept else kept) ≡ occurrences name kept
  one_kept true n kept other = ground (arith, text_eq_iff n name)
  one_kept false n kept other = refl

  pub occurrences-keep_le :
      (names : List Text) → occurrences name (keep p names) ≤ occurrences name names
  occurrences-keep_le [] = omega arith
  occurrences-keep_le (n ∷ names) = ground (arith, occurrences-keep_le names)

  pub occurrences-keep_dropped :
      (names : List Text) → p name ≡ false → occurrences name (keep p names) ≡ 0
  occurrences-keep_dropped [] h = refl
  occurrences-keep_dropped (n ∷ names) h = elim (text_eq-cases n name) [
    | inl (e, same) ↦ rw (same, h) (occurrences-keep_dropped names h)
    | inr (e, other) ↦ one_kept (p n) n (keep p names) other ∙ occurrences-keep_dropped names h
  ]

module _ {F : Type 0} where
  -- A result of this round for this test.
  abbrev pub IsParallel : Text → ℕ → TestResult F → Type 0
  IsParallel name n r = (r.test_name ≡ name) × (r.attempt ≡ pos n) × (r.attempt_type ≡ parallel)

  -- The results are of this test and of rounds from the one number up to below the other, one of a
  -- round and in their order.
  abbrev pub AreRounds : Text → (low high : ℕ) → List (TestResult F) → Type 0
  AreRounds name low high [] = low ≤ high
  AreRounds name low high (r ∷ rs) =
      (n : ℕ) × (low ≤ n) × IsParallel name n r × AreRounds name (suc n) high rs

  AreRounds-le :
      (name : Text) (low high : ℕ) (rs : List (TestResult F))
      → AreRounds name low high rs
      → low ≤ high
  AreRounds-le name low high [] h = h
  AreRounds-le name low high (r ∷ rs) (n, le, is, more) =
      let k = AreRounds-le name (suc n) high rs more in omega arith

  pub AreRounds-later :
      (name : Text) (low high high' : ℕ) (rs : List (TestResult F))
      → high ≤ high'
      → AreRounds name low high rs
      → AreRounds name low high' rs
  AreRounds-later name low high high' [] le h = omega arith
  AreRounds-later name low high high' (r ∷ rs) le (n, above, is, more) =
      (n, above, is, AreRounds-later name (suc n) high high' rs le more)

  AreRounds-append :
      (name : Text) (low high : ℕ) (rs : List (TestResult F)) (r : TestResult F)
      → AreRounds name low high rs
      → IsParallel name high r
      → AreRounds name low (suc high) (rs ++ r ∷ [])
  AreRounds-append name low high [] r h is = (high, h, is, omega arith)
  AreRounds-append name low high (r' ∷ rs) r (n, above, is', more) is =
      (n, above, is', AreRounds-append name (suc n) high rs r more is)

  -- There is at most one result of each round.
  pub length-AreRounds :
      (name : Text) (low high : ℕ) (rs : List (TestResult F))
      → AreRounds name low high rs
      → low + length rs ≤ high
  length-AreRounds name low high [] h = omega arith
  length-AreRounds name low high (r ∷ rs) (n, above, is, more) =
      let k = length-AreRounds name (suc n) high rs more in omega arith

  OnlyLastPasses-append :
      (rs : List (TestResult F)) (r : TestResult F)
      → any_success rs ≡ false
      → OnlyLastPasses (rs ++ r ∷ [])
  OnlyLastPasses-append [] r h = tt
  OnlyLastPasses-append (r' ∷ []) r h = (ground arith, tt)
  OnlyLastPasses-append (r' ∷ next ∷ rs) r h =
      (ground arith, OnlyLastPasses-append (next ∷ rs) r (ground arith))

  -- What is true of the results of a test before a round.
  abbrev pub IsRetried : Text → ℕ → List (TestResult F) → Type 0
  IsRetried name n rs = AreRounds name 1 n rs × OnlyLastPasses rs

  pub IsRetried-later :
      (name : Text) (n m : ℕ) (rs : List (TestResult F))
      → n ≤ m
      → IsRetried name n rs
      → IsRetried name m rs
  IsRetried-later name n m rs le h = (AreRounds-later name 1 n m rs le h.0, h.1)

  pub IsRetried-append :
      (name : Text) (n : ℕ) (rs : List (TestResult F)) (r : TestResult F)
      → IsRetried name n rs
      → any_success rs ≡ false
      → IsParallel name n r
      → IsRetried name (suc n) (rs ++ r ∷ [])
  IsRetried-append name n rs r h e is =
      (AreRounds-append name 1 n rs r h.0 is, OnlyLastPasses-append rs r e)

  abbrev or_empty : Option (List (TestResult F)) → List (TestResult F)
  or_empty o = elim o [ none ↦ [] | some rs ↦ rs ]

  pub results_for-insert_self :
      (name : Text) (rs : List (TestResult F)) (all_results : Dict (List (TestResult F)))
      → results_for name (insert name rs all_results) ≡ rs
  results_for-insert_self name rs all_results = ap or_empty (lookup-insert_self name rs all_results)

  pub results_for-insert_ne :
      (n name : Text) (rs : List (TestResult F)) (all_results : Dict (List (TestResult F)))
      → n ≢ name
      → results_for name (insert n rs all_results) ≡ results_for name all_results
  results_for-insert_ne n name rs all_results h =
      ap or_empty (lookup-insert_ne n name rs all_results h)

module _ {F : Type 0} ⦃d : Float F⦄ where
  no_results_onto_lem :
      (name : Text) (names : List Text) (all_results : Dict (List (TestResult F)))
      → results_for name all_results ≡ []
      → results_for name (no_results_onto all_results names) ≡ []
  unfolding no_results_onto
  no_results_onto_lem name [] all_results h = h
  no_results_onto_lem name (n ∷ names) all_results h =
      no_results_onto_lem name names (insert n [] all_results) (elim (text_eq-cases n name) [
        | inl (e, same) ↦
            subst (λ k. results_for k (insert n [] all_results) ≡ []) same
              (results_for-insert_self n [] all_results)
        | inr (e, other) ↦ results_for-insert_ne n name [] all_results other ∙ h
      ])

  pub results_for-no_results :
      (name : Text) (names : List Text) → results_for {F = F} name (no_results names) ≡ []
  unfolding no_results lookup
  results_for-no_results name names = no_results_onto_lem name names [] refl
