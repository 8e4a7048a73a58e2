-- ===== src/Executor/Run/Valid.antt =====
-- A run keeps the run times valid, whether it returns or raises.
use commons_operator.Prelude.{
  suc, ◌≡◌, refl, sym, subst, Bool, true, false, Option, none, some, [], ◌∷◌, Text, text_eq,
  if◌then◌else◌,
}
use commons_operator.Prelude.Int.{ℤ}
use commons_operator.Float.{Float}
use commons_operator.Exec.{pure, continue_keeps}
use commons_operator.Args.{Args}
use commons_operator.World.{World, Response}
use commons_operator.Results.{TestResult}
use commons_operator.Manager.{update_runtime_history}
use commons_operator.Manager.Invariant.{IsValid, update_runtime_history-IsValid}
use commons_operator.Executor.Command.{given, setup_test_environment}
use commons_operator.Executor.Run.{
  Shell, removed, full_suite, emit, on_manager, raise_unless, run_single_test_suite, finish_run,
  record_runtime, clean_namespace, clean_work_dir, delete_test_namespace,
}

module _ {F : Type 0} ⦃d : Float F⦄ where
  abbrev pub HasValid : Shell F → Type 0
  HasValid s = IsValid s.manager

  record_runtime-HasValid :
      (r : Response F) (name : Option Text) (s : Shell F)
      → HasValid s
      → HasValid (record_runtime r name s).1
  record_runtime-HasValid r none s h = h
  record_runtime-HasValid r (some name) s h = recorded (text_eq name full_suite)
    where
      recorded :
          (b : Bool)
          → HasValid
              ((if b then pure tt else on_manager (update_runtime_history r.now name r.duration))
                s).1
      recorded true = h
      recorded false = update_runtime_history-IsValid r.now name r.duration s.manager h

  pub clean_namespace_manager :
      (r : Response F) (name : Option Text) (skip_delete success : Bool) (namespace : Option Text)
      (s : Shell F)
      → (clean_namespace r name skip_delete success namespace s).manager ≡ s.manager
  unfolding delete_test_namespace
  clean_namespace_manager r none skip_delete success namespace s = refl
  clean_namespace_manager r (some name) false success namespace s = refl
  clean_namespace_manager r (some name) true false namespace s = refl
  clean_namespace_manager r (some name) true true none s = refl
  clean_namespace_manager r (some name) true true (some []) s = refl
  clean_namespace_manager r (some name) true true (some (c ∷ n)) s = refl

  clean_work_dir-HasValid :
      (world : World F) (work_dir : Text) (s : Shell F)
      → HasValid s
      → HasValid (clean_work_dir world work_dir s)
  clean_work_dir-HasValid world work_dir s h = cleaned (world.exists work_dir)
    where
      cleaned : (b : Bool) → HasValid (if b then emit (removed work_dir) s else s)
      cleaned true = h
      cleaned false = h

  finish_run-HasValid :
      (world : World F) (r : Response F) (name : Option Text) (skip_delete : Bool) (work_dir : Text)
      (result : TestResult F) (s : Shell F)
      → HasValid s
      → HasValid (finish_run world r name skip_delete work_dir result s).1
  finish_run-HasValid world r name skip_delete work_dir result s h =
      let m = record_runtime r name s in
      continue_keeps HasValid m.0 _ m.1 (record_runtime-HasValid r name s h) (λ b t h.
        clean_work_dir-HasValid world work_dir _ (
          subst IsValid
            (sym (clean_namespace_manager r name skip_delete result.success result.namespace t)) h))

  raise_unless-HasValid : (b : Bool) (s : Shell F) → HasValid s → HasValid (raise_unless b s).1
  raise_unless-HasValid true s h = h
  raise_unless-HasValid false s h = h

  -- Whether the run returns or raises.
  pub run_single_test_suite-HasValid :
      (world : World F) (args : Args) (name : Option Text) (skip_delete : Bool) (attempt : ℤ)
      (attempt_type : Text) (s : Shell F)
      → HasValid s
      → HasValid (run_single_test_suite world args name skip_delete attempt attempt_type s).1
  unfolding run_single_test_suite
  run_single_test_suite-HasValid world args name skip_delete attempt attempt_type s h =
      let r = world.response s.calls in
      let called : Shell F = record s { calls = suc s.calls } in
      continue_keeps HasValid (setup_test_environment world args) _ called h λ environment t h.
        continue_keeps HasValid (raise_unless r.log_opens t).0 _ (raise_unless r.log_opens t).1
          (raise_unless-HasValid r.log_opens t h)
          λ b u h.
            continue_keeps HasValid (raise_unless r.starts u).0 _ (raise_unless r.starts u).1
              (raise_unless-HasValid r.starts u h)
              λ b v h. finish_run-HasValid world r (given name) skip_delete _ _ _ h
