-- ===== src/Executor/Run/Recorded.antt =====
-- The run time that a run which returns leaves in the histories.
use commons_operator.Prelude.{
  suc, ◌≡◌, refl, sym, ap, ◌∙◌, Bool, true, false, Option, none, some, Text, text_eq, text_eq_iff,
  if◌then◌else◌,
}
use commons_operator.Prelude.Int.{ℤ, is_zero}
use commons_operator.Prelude.Dict.{lookup, lookup-insert}
use commons_operator.Float.{Float}
use commons_operator.Exec.{ok, EndsIn, EndsIn_ok, EndsIn-continue, EndsIn-state, pure}
use commons_operator.Args.{Args}
use commons_operator.World.{World, Response}
use commons_operator.Results.{TestResult}
use commons_operator.Runtime.{RuntimeHistory, add_runtime}
use commons_operator.Manager.{or_new, update_runtime_history}
use commons_operator.Manager.Invariant.{history-update}
use commons_operator.Executor.Command.{given, setup_test_environment}
use commons_operator.Executor.Run.{
  Shell, removed, full_suite, on_manager, name_or_full_suite, emit, raise_unless,
  run_single_test_suite, start_run, finish_run, record_runtime, clean_work_dir, result_of_run,
}
use commons_operator.Executor.Run.Valid.{clean_namespace_manager}
use commons_operator.Executor.Run.Outcome.{is_none, run_single_test_suite-Reports}

module _ {F : Type 0} ⦃d : Float F⦄ where
  -- The history of a test, in the state of the executor.
  abbrev pub history : Text → Shell F → Option (RuntimeHistory F)
  history key s = lookup key s.manager.runtime_history

  -- What a run of `name` makes of the history of `key`: nothing for the full suite, which is not a
  -- test, and for another test.
  abbrev pub recorded :
      Text → F → Text → Text → Option (RuntimeHistory F) → Option (RuntimeHistory F)
  recorded now duration name key old =
      if text_eq name full_suite
      then old
      else if text_eq name key
      then some (add_runtime now duration (or_new now name old))
      else old

  record_runtime-recorded :
      (r : Response F) (name : Option Text) (key : Text) (s : Shell F)
      → history key (record_runtime r name s).1
        ≡ recorded r.now r.duration (name_or_full_suite name) key (history key s)
  unfolding text_eq
  record_runtime-recorded r none key s = refl
  record_runtime-recorded r (some name) key s = either (text_eq name full_suite)
    where
      old : Option (RuntimeHistory F)
      old = history key s

      here :
          (b : Bool)
          → text_eq name key ≡ b
          → (if b
              then some (add_runtime r.now r.duration (or_new r.now name (history name s)))
              else old)
            ≡ (if b then some (add_runtime r.now r.duration (or_new r.now name old)) else old)
      here true e =
          ap (λ k. some (add_runtime r.now r.duration (or_new r.now name (history k s))))
            ((text_eq_iff name key).0 e)
      here false e = refl

      either :
          (b : Bool)
          → history key
              ((if b then pure tt else on_manager (update_runtime_history r.now name r.duration))
                s).1
            ≡ (if b
                then old
                else if text_eq name key
                then some (add_runtime r.now r.duration (or_new r.now name old))
                else old)
      either true = refl
      either false =
          ap (lookup key) (history-update r.now name r.duration s.manager)
          ∙ (lookup-insert name key _ s.manager.runtime_history ∙ here (text_eq name key) refl)

  cleaned_history :
      (world : World F) (work_dir key : Text) (s : Shell F)
      → history key (clean_work_dir world work_dir s) ≡ history key s
  cleaned_history world work_dir key s = either (world.exists work_dir)
    where
      either : (b : Bool) → history key (if b then emit (removed work_dir) s else s) ≡ history key s
      either true = refl
      either false = refl

  module _ (world : World F) (args : Args) (r : Response F) (name : Option Text)
      (skip_delete : Bool) (key : Text) (old : Option (RuntimeHistory F)) where
    -- What holds of the state once the run time is recorded.
    abbrev Recorded : {A : Type 0} → A → Shell F → Type 0
    Recorded a t = history key t ≡ recorded r.now r.duration (name_or_full_suite name) key old

    finish_run-Recorded :
        (work_dir : Text) (result : TestResult F) (s : Shell F)
        → history key s ≡ old
        → EndsIn Recorded
            (finish_run world r name skip_delete work_dir result s).0
            (finish_run world r name skip_delete work_dir result s).1
    finish_run-Recorded work_dir result s h =
        let m = record_runtime r name s in
        let done =
          record_runtime-recorded r name key s
          ∙ ap (recorded r.now r.duration (name_or_full_suite name) key) h in
        EndsIn-continue Recorded Recorded m.0 _ m.1 (EndsIn-state Recorded m.0 m.1 (λ u. done))
          (λ a t e.
            cleaned_history world work_dir key _
            ∙ (ap (λ m. lookup key m.runtime_history)
                  (clean_namespace_manager r name skip_delete result.success result.namespace t)
                ∙ e))

    start_run-Recorded :
        (attempt : ℤ) (attempt_type : Text) (s : Shell F)
        → history key s ≡ old
        → EndsIn Recorded
            (start_run world args r name skip_delete attempt attempt_type s).0
            (start_run world args r name skip_delete attempt attempt_type s).1
    start_run-Recorded attempt attempt_type s h =
        EndsIn-continue Same Recorded (setup_test_environment world args) _ s
          (EndsIn-state Same (setup_test_environment world args) s (λ a. h))
          λ environment t e.
            EndsIn-continue Same Recorded (raise_unless r.log_opens t).0 _
              (raise_unless r.log_opens t).1 (raise_unless-Same r.log_opens t e)
              λ _ u e'.
                EndsIn-continue Same Recorded (raise_unless r.starts u).0 _
                  (raise_unless r.starts u).1 (raise_unless-Same r.starts u e')
                  λ _ v e''. finish_run-Recorded _ _ _ e''
      where
        Same : {A : Type 0} → A → Shell F → Type 0
        Same a t = history key t ≡ old

        raise_unless-Same :
            (b : Bool) (t : Shell F)
            → history key t ≡ old
            → EndsIn Same (raise_unless b t).0 (raise_unless b t).1
        raise_unless-Same true t h = h
        raise_unless-Same false t h = tt

  -- A run that returns has the name, the attempt and the type that were asked for in its result,
  -- the full suite where no test was named; it is a success exactly if the process returned 0, and
  -- it has a failed step exactly if it is none. The history of the test that it names has got the
  -- run time of the result, one that may be too short to count, and the histories of all other
  -- tests are as they were, as is each after a run of the full suite.
  pub run_single_test_suite-recorded :
      (world : World F) (args : Args) (name : Option Text) (skip_delete : Bool) (attempt : ℤ)
      (attempt_type key : Text) (s s' : Shell F) (out : TestResult F)
      → run_single_test_suite world args name skip_delete attempt attempt_type s ≡ (ok out, s')
      → (out.test_name ≡ name_or_full_suite (given name))
        × (out.attempt ≡ attempt)
        × (out.attempt_type ≡ attempt_type)
        × (out.success ≡ is_zero (world.response s.calls).returncode)
        × (out.success ≡ is_none out.failed_step)
        × (history key s'
            ≡ recorded (world.response s.calls).now out.duration out.test_name key (history key s))
  unfolding result_of_run run_single_test_suite
  run_single_test_suite-recorded world args name skip_delete attempt attempt_type key s s' out h =
      let r = world.response s.calls in
      let (same, success, step) =
        run_single_test_suite-Reports world args name skip_delete attempt attempt_type s s' out h in
      (
        ap (λ (o : TestResult F). o.test_name) same,
        ap (λ (o : TestResult F). o.attempt) same,
        ap (λ (o : TestResult F). o.attempt_type) same,
        success,
        step,
        EndsIn_ok (Recorded world args r (given name) skip_delete key (history key s)) h (
              start_run-Recorded world args r (given name) skip_delete key (history key s) attempt
                attempt_type (record s { calls = suc s.calls }) refl)
            ∙ ap (λ (o : TestResult F). recorded r.now o.duration o.test_name key (history key s))
                (sym same),
      )
