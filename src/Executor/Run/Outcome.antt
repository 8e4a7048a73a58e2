-- ===== src/Executor/Run/Outcome.antt =====
-- What a run that returns reports: the fields of its result, whatever the world answers.
use commons_operator.Prelude.{
  suc, ◌≡◌, refl, sym, subst, Bool, true, false, Option, none, some, Text, if◌then◌else◌,
}
use commons_operator.Prelude.Int.{ℤ, is_zero}
use commons_operator.Float.{Float}
use commons_operator.Exec.{Exec, Result, ok, raised, continue}
use commons_operator.Args.{Args}
use commons_operator.World.{World, Response}
use commons_operator.Results.{TestResult}
use commons_operator.Executor.Command.{given, setup_test_environment}
use commons_operator.Executor.Log.{extract_failed_step}
use commons_operator.Executor.Run.{
  Shell, run_single_test_suite, start_run, finish_run, result_of_run, record_runtime, raise_unless,
}

abbrev pub is_none : {A : Type 0} → Option A → Bool
is_none none = true
is_none (some a) = false

abbrev pub OnOk : {B : Type 0} → (B → Type 0) → Result B → Type 0
OnOk P (ok b) = P b
OnOk P (raised e) = Unit

step_unless : (b : Bool) (step : Text) → b ≡ is_none (if b then none else some step)
step_unless true step = refl
step_unless false step = refl

-- A step before the rest: what returns in the end has returned there.
OnOk-continue :
    {S A B : Type 0} (P : B → Type 0) (r : Result A) (f : A → Exec S B) (s : S)
    → ((a : A) (t : S) → OnOk P (f a t).0)
    → OnOk P (continue r f s).0
OnOk-continue P (ok a) f s h = h a s
OnOk-continue P (raised e) f s h = tt

OnOk_ok :
    {S B : Type 0} (P : B → Type 0) {p : Result B × S} (b : B) (s : S)
    → p ≡ (ok b, s)
    → OnOk P p.0
    → P b
OnOk_ok P b s e h = subst (λ p. OnOk P p.0) e h

module _ {F : Type 0} ⦃d : Float F⦄ where
  finish_run_outcome :
      (world : World F) (r : Response F) (name : Option Text) (skip_delete : Bool) (work_dir : Text)
      (result : TestResult F) (s : Shell F)
      → OnOk (λ out. out ≡ result) (finish_run world r name skip_delete work_dir result s).0
  finish_run_outcome world r name skip_delete work_dir result s =
      OnOk-continue (λ out. out ≡ result) (record_runtime r name s).0 _ (record_runtime r name s).1
        (λ a t. refl)

  start_run_outcome :
      (world : World F) (args : Args) (r : Response F) (name : Option Text) (skip_delete : Bool)
      (attempt : ℤ) (attempt_type : Text) (s : Shell F)
      → OnOk
          (λ out. out ≡ result_of_run world r args.output_dir name attempt attempt_type)
          (start_run world args r name skip_delete attempt attempt_type s).0
  start_run_outcome world args r name skip_delete attempt attempt_type s =
      OnOk-continue Out (setup_test_environment world args) _ s λ environment t.
        OnOk-continue Out (raise_unless r.log_opens t).0 _ (raise_unless r.log_opens t).1 λ _ u.
          OnOk-continue Out (raise_unless r.starts u).0 _ (raise_unless r.starts u).1
            λ _ v. finish_run_outcome world r name skip_delete _ _ _
    where
      Out : TestResult F → Type 0
      Out out = out ≡ result_of_run world r args.output_dir name attempt attempt_type

  -- The statement of a result: what is asked for is named, and the status of the process decides the
  -- rest.
  abbrev pub Reports : World F → Args → Response F → Option Text → ℤ → Text → TestResult F → Type 0
  Reports world args r name attempt attempt_type out =
      (out ≡ result_of_run world r args.output_dir name attempt attempt_type)
      × (out.success ≡ is_zero r.returncode)
      × (out.success ≡ is_none out.failed_step)

  Reports-of_run :
      (world : World F) (args : Args) (r : Response F) (name : Option Text) (attempt : ℤ)
      (attempt_type : Text)
      → Reports world args r name attempt attempt_type
          (result_of_run world r args.output_dir name attempt attempt_type)
  unfolding result_of_run
  Reports-of_run world args r name attempt attempt_type =
      (refl, refl, step_unless (is_zero r.returncode) (extract_failed_step world.is_word r.log))

  pub run_outcome :
      (world : World F) (args : Args) (name : Option Text) (skip_delete : Bool) (attempt : ℤ)
      (attempt_type : Text) (s : Shell F)
      → OnOk
          (λ out.
            out
            ≡ result_of_run world
                (world.response s.calls)
                args.output_dir
                (given name)
                attempt
                attempt_type)
          (run_single_test_suite world args name skip_delete attempt attempt_type s).0
  unfolding run_single_test_suite
  run_outcome world args name skip_delete attempt attempt_type s =
      start_run_outcome world args (world.response s.calls) (given name) skip_delete attempt
        attempt_type (record s { calls = suc s.calls })

  -- A run that returns reports what was asked for and what the process did: it is a success exactly
  -- if the process returned 0, and it has a failed step exactly if it is none.
  pub run_single_test_suite-Reports :
      (world : World F) (args : Args) (name : Option Text) (skip_delete : Bool) (attempt : ℤ)
      (attempt_type : Text) (s s' : Shell F) (out : TestResult F)
      → run_single_test_suite world args name skip_delete attempt attempt_type s ≡ (ok out, s')
      → Reports world args (world.response s.calls) (given name) attempt attempt_type out
  run_single_test_suite-Reports world args name skip_delete attempt attempt_type s s' out h =
      let r = world.response s.calls in
      let same =
        OnOk_ok (λ o. o ≡ result_of_run world r args.output_dir (given name) attempt attempt_type)
          out s' h (run_outcome world args name skip_delete attempt attempt_type s) in
      subst (Reports world args r (given name) attempt attempt_type) (sym same)
        (Reports-of_run world args r (given name) attempt attempt_type)
