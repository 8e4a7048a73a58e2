-- ===== src/Executor/Run/Cleanup.antt =====
-- What a run that returns has done to the world: what it may delete.
use commons_operator.Prelude.{
  suc, ◌≡◌, refl, sym, ap, subst, ◌∙◌, Bool, true, false, Option, none, some, List, [], ◌∷◌, ◌++◌,
  append_assoc, append-nil, All, All-append, Text, text_eq, if◌then◌else◌, Option-cases, inl, inr,
}
use commons_operator.Prelude.Int.{ℤ, is_zero}
use commons_operator.Float.{Float}
use commons_operator.Exec.{ok, pure, EndsIn, EndsIn_ok, EndsIn-state, EndsIn-map, EndsIn-continue}
use commons_operator.Args.{Args}
use commons_operator.World.{World, Response}
use commons_operator.Results.{TestResult}
use commons_operator.Manager.{update_runtime_history}
use commons_operator.Executor.Log.{
  extract_test_namespace_from_log_file, namespace_prefix, search_group, namespace_literal,
  is_visible,
}
use commons_operator.Executor.Naming.{work_dir_of}
use commons_operator.Executor.Command.{given, build_test_command, setup_test_environment}
use commons_operator.Executor.Run.Outcome.{run_single_test_suite-Reports}
use commons_operator.Executor.Run.{
  Shell, Event, ran, deleted, removed, full_suite, emit, on_manager, raise_unless,
  run_single_test_suite, start_run, finish_run, result_of_run, record_runtime, clean_namespace,
  clean_work_dir, delete_test_namespace,
}

-- A namespace of the test framework.
abbrev pub IsTestNamespace : Text → Type 0
IsTestNamespace namespace = (rest : Text) × (namespace ≡ namespace_prefix ++ rest)

extract-IsTestNamespace :
    (log : Option Text) (namespace : Text)
    → extract_test_namespace_from_log_file log ≡ some namespace
    → IsTestNamespace namespace
unfolding extract_test_namespace_from_log_file
extract-IsTestNamespace none namespace h = cc
extract-IsTestNamespace (some content) namespace h =
    elim (Option-cases (search_group namespace_literal is_visible content)) [
      | inl e ↦ cc (e, h)
      | inr (rest, e) ↦ (rest, cc (e, h))
    ]

abbrev is_some : {A : Type 0} → Option A → Bool
is_some none = false
is_some (some a) = true

-- What a run may do to the world: only one of a single test that passed, and that was told to skip
-- the deletion, deletes a namespace, that of its log; and it removes only its own work directory.
abbrev pub MayDo : Option Text → Bool → Bool → Option Text → Text → Event → Type 0
MayDo name skip_delete success namespace work_dir (ran command environment) = Unit
MayDo name skip_delete success namespace work_dir (removed directory) = directory ≡ work_dir
MayDo name skip_delete success namespace work_dir (deleted test_namespace) =
    (is_some name ≡ true)
    × (skip_delete ≡ true)
    × (success ≡ true)
    × (namespace ≡ some test_namespace)
    × IsTestNamespace test_namespace

module _ {F : Type 0} (P : Event → Type 0) where
  -- The later state has events more, all of them allowed.
  abbrev pub Adds : Shell F → Shell F → Type 0
  Adds s t = (added : List Event) × (t.events ≡ s.events ++ added) × All P added

  Adds-same : (s t : Shell F) → t.events ≡ s.events → Adds s t
  Adds-same s t e = ([], e ∙ sym (append-nil s.events), tt)

  Adds-trans : (s t u : Shell F) → Adds s t → Adds t u → Adds s u
  Adds-trans s t u (xs, e, p) (ys, e', q) =
      (xs ++ ys, e' ∙ ap (λ l. l ++ ys) e ∙ append_assoc s.events xs ys, All-append P xs ys p q)

module _ {F : Type 0} ⦃d : Float F⦄ where
  record_runtime_events :
      (r : Response F) (name : Option Text) (s : Shell F)
      → EndsIn
          (λ b (t : Shell F). t.events ≡ s.events)
          (record_runtime r name s).0
          (record_runtime r name s).1
  record_runtime_events r none s = refl
  record_runtime_events r (some name) s = recorded (text_eq name full_suite)
    where
      recorded :
          (b : Bool)
          → EndsIn
              (λ b (t : Shell F). t.events ≡ s.events)
              ((if b then pure tt else on_manager (update_runtime_history r.now name r.duration))
                s).0
              ((if b then pure tt else on_manager (update_runtime_history r.now name r.duration))
                s).1
      recorded true = refl
      recorded false = EndsIn-state (λ b (t : Shell F). t.events ≡ s.events) _ _ (λ b. refl)

  clean_namespace_events :
      (r : Response F) (name : Option Text) (skip_delete success : Bool) (namespace : Option Text)
      (work_dir : Text) (s : Shell F)
      → ((n : Text) → namespace ≡ some n → IsTestNamespace n)
      → Adds
          (MayDo name skip_delete success namespace work_dir)
          s
          (clean_namespace r name skip_delete success namespace s)
  unfolding delete_test_namespace
  clean_namespace_events r none skip_delete success namespace work_dir s h = Adds-same _ s s refl
  clean_namespace_events r (some name) false success namespace work_dir s h = Adds-same _ s s refl
  clean_namespace_events r (some name) true false namespace work_dir s h = Adds-same _ s s refl
  clean_namespace_events r (some name) true true none work_dir s h = Adds-same _ s s refl
  clean_namespace_events r (some name) true true (some []) work_dir s h = Adds-same _ s s refl
  clean_namespace_events r (some name) true true (some (c ∷ n)) work_dir s h =
      (deleted (c ∷ n) ∷ [], refl, ((refl, refl, refl, refl, h (c ∷ n) refl), tt))

  clean_work_dir_events :
      (P : Event → Type 0) (world : World F) (work_dir : Text) (s : Shell F)
      → P (removed work_dir)
      → Adds P s (clean_work_dir world work_dir s)
  clean_work_dir_events P world work_dir s p = cleaned (world.exists work_dir)
    where
      cleaned : (b : Bool) → Adds P s (if b then emit (removed work_dir) s else s)
      cleaned true = (removed work_dir ∷ [], refl, (p, tt))
      cleaned false = Adds-same P s s refl

  module _ (world : World F) (args : Args) (r : Response F) (name : Option Text)
      (skip_delete : Bool) (attempt : ℤ) (attempt_type : Text) where
    abbrev pub work_dir : Text
    work_dir = work_dir_of name attempt attempt_type r.work_timestamp

    -- Of the fields of its result, the status and the namespace matter here.
    abbrev pub MayDoHere : Event → Type 0
    MayDoHere =
        MayDo name skip_delete (is_zero r.returncode) (extract_test_namespace_from_log_file r.log)
          work_dir

    pub finish_run_events :
        (s : Shell F)
        → EndsIn
            (λ b t. Adds MayDoHere s t)
            (finish_run world r name skip_delete work_dir
              (result_of_run world r args.output_dir name attempt attempt_type)
              s).0
            (finish_run world r name skip_delete work_dir
              (result_of_run world r args.output_dir name attempt attempt_type)
              s).1
    unfolding result_of_run
    finish_run_events s =
        let m = record_runtime r name s in
        let success = is_zero r.returncode in
        let namespace = extract_test_namespace_from_log_file r.log in
        EndsIn-continue (λ b (t : Shell F). t.events ≡ s.events) (λ b t. Adds MayDoHere s t) m.0 _
          m.1 (record_runtime_events r name s)
          (λ b t e.
            let u = clean_namespace r name skip_delete success namespace t in
            let v = clean_work_dir world work_dir u in
            Adds-trans MayDoHere s t v (Adds-same MayDoHere s t e) (
              Adds-trans MayDoHere t u v
                (clean_namespace_events r name skip_delete success namespace work_dir t
                  (extract-IsTestNamespace r.log))
                (clean_work_dir_events MayDoHere world work_dir u refl)))

    start_run_events :
        (s : Shell F)
        → EndsIn
            (λ b t. Adds MayDoHere s t)
            (start_run world args r name skip_delete attempt attempt_type s).0
            (start_run world args r name skip_delete attempt attempt_type s).1
    start_run_events s =
        let Q : TestResult F → Shell F → Type 0 = λ b t. Adds MayDoHere s t in
        EndsIn-continue (λ b (t : Shell F). t ≡ s) Q (setup_test_environment world args) _ s
          (EndsIn-state (λ b (t : Shell F). t ≡ s) (setup_test_environment world args) s
            (λ b. refl))
          λ environment t e.
            EndsIn-continue (λ b (t : Shell F). t ≡ s) Q (raise_unless r.log_opens t).0 _
              (raise_unless r.log_opens t).1 (same_after r.log_opens t e)
              λ b u e'.
                EndsIn-continue (λ b (t : Shell F). t ≡ s) Q (raise_unless r.starts u).0 _
                  (raise_unless r.starts u).1 (same_after r.starts u e')
                  λ b' v e''.
                    let started =
                      emit
                        (ran (build_test_command args name skip_delete (some work_dir)) environment)
                        v in
                    let m =
                      finish_run world r name skip_delete work_dir
                        (result_of_run world r args.output_dir name attempt attempt_type) started in
                    EndsIn-map (λ b t. Adds MayDoHere started t) Q m.0 m.1
                      (λ b t a.
                        Adds-trans MayDoHere s started t
                          (
                            ran (build_test_command args name skip_delete (some work_dir))
                                  environment
                                ∷ [],
                            ap
                                (λ (x : Shell F).
                                  x.events
                                  ++ ran (build_test_command args name skip_delete (some work_dir))
                                      environment
                                    ∷ [])
                                e'',
                            (tt, tt),
                          )
                          a)
                      (finish_run_events started)
      where
        same_after :
            (b : Bool) (t : Shell F)
            → t ≡ s
            → EndsIn (λ b (t : Shell F). t ≡ s) (raise_unless b t).0 (raise_unless b t).1
        same_after true t e = e
        same_after false t e = tt

  -- Whatever the world answers, a run that returns has added events only, and each that is not a
  -- process is allowed: it may delete just the namespace of its own log, a test namespace, and only
  -- if a single test was run, it passed, and the deletion was left to it.
  pub run_single_test_suite_events :
      (world : World F) (args : Args) (name : Option Text) (skip_delete : Bool) (attempt : ℤ)
      (attempt_type : Text) (s s' : Shell F) (out : TestResult F)
      → run_single_test_suite world args name skip_delete attempt attempt_type s ≡ (ok out, s')
      → Adds
          (MayDo
            (given name)
            skip_delete
            out.success
            out.namespace
            (work_dir_of (given name) attempt attempt_type (world.response s.calls).work_timestamp))
          s
          s'
  unfolding run_single_test_suite result_of_run
  run_single_test_suite_events world args name skip_delete attempt attempt_type s s' out h =
      let r = world.response s.calls in
      let (same, status, step) =
        run_single_test_suite-Reports world args name skip_delete attempt attempt_type s s' out h in
      let started : Shell F = record s { calls = suc s.calls } in
      subst
        (λ (o : TestResult F).
          Adds
            (MayDo (given name) skip_delete o.success o.namespace
              (work_dir_of (given name) attempt attempt_type r.work_timestamp))
            s s')
        (sym same)
        (EndsIn_ok
          (λ b t.
            Adds (MayDoHere world args r (given name) skip_delete attempt attempt_type) started t)
          h (start_run_events world args r (given name) skip_delete attempt attempt_type started))
