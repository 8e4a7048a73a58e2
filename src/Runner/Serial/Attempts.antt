-- ===== src/Runner/Serial/Attempts.antt =====
-- What a serial retry that returns has done: its attempts, in order, and where they end.
use commons_operator.Prelude.{
  ℕ, zero, suc, ◌+◌, ◌≤◌, ◌≡◌, refl, sym, ap, ◌∙◌, ◌⊎◌, inl, inr, Bool, true, false, not, ◌&&◌,
  ◌||◌, some, List, [], ◌∷◌, ◌++◌, append_assoc, append-nil, arith, Text, length, if◌then◌else◌,
  ◌==◌,
}
use commons_operator.Prelude.Int.{pos, leb_ℤ}
use commons_operator.Float.{Float}
use commons_operator.Exec.{
  Exec, Result, ok, raised, ◌>>=◌, pure, EndsIn, EndsIn_ok, EndsIn-state, EndsIn-continue,
}
use commons_operator.Args.{Args}
use commons_operator.World.{World}
use commons_operator.Results.{TestResult, serial}
use commons_operator.Executor.Run.{Shell, run_single_test_suite, result_of_run}
use commons_operator.Executor.Run.Outcome.{OnOk, run_outcome}
use commons_operator.Runner.{Runner, append_result}
use commons_operator.Runner.State.{save_state}
use commons_operator.Runner.Serial.{
  serial_attempt, serial_attempts, retry_test_serially, any_success,
}

module _ {F : Type 0} where
  -- A result of this attempt at this test.
  abbrev pub IsAttempt : Text → ℕ → TestResult F → Type 0
  IsAttempt name n r = (r.test_name ≡ name) × (r.attempt ≡ pos n) × (r.attempt_type ≡ serial)

  -- The attempts are numbered from this number on.
  abbrev pub AreAttempts : Text → ℕ → List (TestResult F) → Type 0
  AreAttempts name n [] = Unit
  AreAttempts name n (r ∷ rs) = IsAttempt name n r × AreAttempts name (n + 1) rs

  -- No attempt comes after one that passed.
  abbrev pub OnlyLastPasses : List (TestResult F) → Type 0
  OnlyLastPasses [] = Unit
  OnlyLastPasses (r ∷ []) = Unit
  OnlyLastPasses (r ∷ next ∷ rs) = (r.success ≡ false) × OnlyLastPasses (next ∷ rs)

  -- At most so many results, and fewer only if one of them passed.
  abbrev pub Exhausts : ℕ → List (TestResult F) → Type 0
  Exhausts max rs = (length rs ≤ max) × ((length rs ≡ max) ⊎ (any_success rs ≡ true))

  abbrev pub Retries : Text → ℕ → ℕ → List (TestResult F) → Type 0
  Retries name n max rs = AreAttempts name n rs × OnlyLastPasses rs × Exhausts max rs

  OnlyLastPasses-cons :
      (r : TestResult F) (rs : List (TestResult F))
      → r.success ≡ false
      → OnlyLastPasses rs
      → OnlyLastPasses (r ∷ rs)
  OnlyLastPasses-cons r [] e h = tt
  OnlyLastPasses-cons r (next ∷ rs) e h = (e, h)

  Retries-passed :
      (name : Text) (n left : ℕ) (r : TestResult F)
      → IsAttempt name n r
      → r.success ≡ true
      → Retries name n (suc left) (r ∷ [])
  Retries-passed name n left r a e = ((a, tt), tt, (omega arith, inr (ap (λ b. b || false) e)))

  Retries-failed :
      (name : Text) (n left : ℕ) (r : TestResult F) (rs : List (TestResult F))
      → IsAttempt name n r
      → r.success ≡ false
      → Retries name (n + 1) left rs
      → Retries name n (suc left) (r ∷ rs)
  Retries-failed name n left r rs a e (h, k, (few, end)) =
      ((a, h), OnlyLastPasses-cons r rs e k, (omega arith, ended end))
    where
      ended :
          (length rs ≡ left) ⊎ (any_success rs ≡ true)
          → (length (r ∷ rs) ≡ suc left) ⊎ (any_success (r ∷ rs) ≡ true)
      ended (inl same) = inl (omega arith)
      ended (inr some_passed) = inr (ground arith)

module _ {F : Type 0} ⦃d : Float F⦄ (world : World F) (args : Args) where
  module _ (s : Runner F) (P : TestResult F → Type 0) where
    shell_step :
        (r : Result (TestResult F)) (sh : Shell F)
        → OnOk P r
        → EndsIn (λ out (t : Runner F). P out × (t.results ≡ s.results)) r (record s { shell = sh })
    shell_step (ok out) sh h = (h, refl)
    shell_step (raised e) sh h = tt

  Attempted : Text → ℕ → Runner F → TestResult F → Runner F → Type 0
  Attempted name n s r t = IsAttempt name n r × (t.results ≡ s.results ++ r ∷ [])

  serial_attempt_ends :
      (c : ℕ) (name : Text) (skip_delete : Bool) (n : ℕ) (s : Runner F)
      → EndsIn
          (Attempted (c ∷ name) n s)
          (serial_attempt world args (c ∷ name) skip_delete n s).0
          (serial_attempt world args (c ∷ name) skip_delete n s).1
  unfolding serial_attempt Attempted save_state result_of_run
  serial_attempt_ends c name skip_delete n s =
      let P : TestResult F → Type 0 = λ out.
        out
        ≡ result_of_run world (world.response s.shell.calls) args.output_dir (some (c ∷ name))
            (pos n) serial in
      let m =
        run_single_test_suite world args (some (c ∷ name)) skip_delete (pos n) serial s.shell in
      EndsIn-continue (λ out (t : Runner F). P out × (t.results ≡ s.results))
        (Attempted (c ∷ name) n s) m.0 _ (record s { shell = m.1 })
        (shell_step s P m.0 m.1
          (run_outcome world args (some (c ∷ name)) skip_delete (pos n) serial s.shell))
        (λ r t (e, same).
          let saved = save_state args (append_result r t) in
          EndsIn-continue (λ b (u : Runner F). u.results ≡ t.results ++ r ∷ [])
            (Attempted (c ∷ name) n s) saved.0 _ saved.1
            (EndsIn-state (λ b (u : Runner F). u.results ≡ t.results ++ r ∷ []) saved.0 saved.1
              (λ b. refl))
            (λ b u kept. (
              (ap (λ o. o.test_name) e, ap (λ o. o.attempt) e, ap (λ o. o.attempt_type) e),
              kept ∙ ap (λ l. l ++ r ∷ []) same,
            )))

  Retried : Text → ℕ → ℕ → Runner F → List (TestResult F) → Runner F → Type 0
  Retried name n left s rs t = Retries name n left rs × (t.results ≡ s.results ++ rs)

  -- The rest of the loop after an attempt, by its outcome.
  module _ (c : ℕ) (name : Text) (left n max : ℕ) (s : Runner F)
      (loop : (t : Runner F)
        → EndsIn
            (Retried (c ∷ name) (n + 1) left t)
            (serial_attempts world args (c ∷ name) left (n + 1) max t).0
            (serial_attempts world args (c ∷ name) left (n + 1) max t).1)
      (r : TestResult F) (t : Runner F) (done : Attempted (c ∷ name) n s r t) where
    abbrev rest_of : Bool → Exec (Runner F) (List (TestResult F))
    rest_of b = elim b [
      | true ↦ pure []
      | false ↦ serial_attempts world args (c ∷ name) left (n + 1) max
    ]

    rest_ends :
        (b : Bool)
        → r.success ≡ b
        → EndsIn
            (Retried (c ∷ name) n (suc left) s)
            ((rest_of b >>= λ rest. pure (r ∷ rest)) t).0
            ((rest_of b >>= λ rest. pure (r ∷ rest)) t).1
    unfolding Retried Attempted
    rest_ends true e = (Retries-passed (c ∷ name) n left r done.0 e, done.1)
    rest_ends false e =
        let m = serial_attempts world args (c ∷ name) left (n + 1) max t in
        EndsIn-continue (Retried (c ∷ name) (n + 1) left t) (Retried (c ∷ name) n (suc left) s) m.0
          _ m.1 (loop t)
          (λ rs u (h, kept). (
            Retries-failed (c ∷ name) n left r rs done.0 e h,
            kept ∙ ap (λ l. l ++ rs) done.1 ∙ append_assoc s.results (r ∷ []) rs,
          ))

  serial_attempts_ends :
      (c : ℕ) (name : Text) (left n max : ℕ) (s : Runner F)
      → EndsIn
          (Retried (c ∷ name) n left s)
          (serial_attempts world args (c ∷ name) left n max s).0
          (serial_attempts world args (c ∷ name) left n max s).1
  unfolding serial_attempts Retried
  serial_attempts_ends c name zero n max s =
      ((tt, tt, (omega arith, inl refl)), sym (append-nil s.results))
  serial_attempts_ends c name (suc left) n max s =
      let skip_delete = not args.delete_failed_namespaces && (n == max) in
      let m = serial_attempt world args (c ∷ name) skip_delete n s in
      EndsIn-continue (Attempted (c ∷ name) n s) (Retried (c ∷ name) n (suc left) s) m.0 _ m.1
        (serial_attempt_ends c name skip_delete n s)
        (λ r t done.
          rest_ends c name left n max s (serial_attempts_ends c name left (n + 1) max) r t done
            r.success refl)

  -- A serial retry of a test that returns has made the attempts 1, 2, … at this test and kept their
  -- results in the run's, in order. No attempt comes after one that passed, there are at most as many
  -- as are allowed, and fewer only if one passed.
  pub retry_test_serially_lem :
      (c : ℕ) (name : Text) (max : ℕ) (s s' : Runner F) (rs : List (TestResult F))
      → retry_test_serially world args (c ∷ name) (pos max) s ≡ (ok rs, s')
      → Retries (c ∷ name) 1 max rs × (s'.results ≡ s.results ++ rs)
  unfolding retry_test_serially Retried
  retry_test_serially_lem c name zero s s' rs h =
      EndsIn_ok (Retried (c ∷ name) 1 0 s) h
        ((tt, tt, (omega arith, inl refl)), sym (append-nil s.results))
  retry_test_serially_lem c name (suc max) s s' rs h =
      let some_left : leb_ℤ (pos (suc max)) (pos 0) ≡ false = ground arith in
      let start =
        ap
          (λ b.
            (if b then pure [] else serial_attempts world args (c ∷ name) (suc max) 1 (suc max)) s)
          some_left in
      EndsIn_ok (Retried (c ∷ name) 1 (suc max) s) (sym start ∙ h)
        (serial_attempts_ends c name (suc max) 1 (suc max) s)
