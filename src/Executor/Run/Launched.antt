-- ===== src/Executor/Run/Launched.antt =====
-- A run together with scripts/run-tests, the program that it starts.
use commons_operator.Prelude.{
  ℕ, suc, ◌≤◌, ◌≡◌, refl, sym, ap, subst, ◌∙◌, Bool, true, false, Option, none, some, List, [], ◌∷◌,
  ◌++◌, append_assoc, Text, length, drop, arith, ◌==◌,
}
use commons_operator.Prelude.Int.{ℤ, pos, is_zero, decimal_ℤ}
use commons_operator.Prelude.Dict.{Dict}
use commons_operator.Float.{Float}
use commons_operator.Exec.{ok, >>=-eq-ok, EndsIn_ok}
use commons_operator.Args.{Args}
use commons_operator.World.{World, Response}
use commons_operator.Results.{TestResult}
use commons_operator.Executor.Naming.{work_dir_of}
use commons_operator.Executor.Command.{given, build_test_command, setup_test_environment}
use commons_operator.Executor.Run.{
  Shell, Event, ran, emit, raise_unless, run_single_test_suite, start_run,
}
use commons_operator.Executor.Run.Outcome.{run_single_test_suite-Reports}
use commons_operator.Executor.Run.Cleanup.{Adds, MayDoHere, finish_run_events}
use commons_operator.Options.Number.{most_digits}
use commons_operator.Options.Pieces.{is_dash}
use commons_operator.Options
use commons_operator.Options.{parsed, parse, finish, settle}
use commons_operator.Launcher
use commons_operator.Launcher.{Session, Command}
use commons_operator.Launcher.Arguments.{parse_args, options}
use commons_operator.Launcher.Main.{main}
use commons_operator.Launcher.Main.Passed.{AllPass, main-AllPass}
use commons_operator.Launcher.Retry.{IsValue, requested, parse_args-build_test_command}

work_dir_of-dash :
    (name : Option Text) (attempt : ℤ) (attempt_type timestamp : Text)
    → is_dash (work_dir_of name attempt attempt_type timestamp) ≡ false
unfolding work_dir_of
work_dir_of-dash none attempt attempt_type timestamp = refl
work_dir_of-dash (some name) attempt attempt_type timestamp = refl

work_dir-IsValue : (s : Text) → is_dash s ≡ false → IsValue (given (some s))
work_dir-IsValue [] h = tt
work_dir-IsValue (c ∷ s) h = h

given_idem : (o : Option Text) → given (given o) ≡ given o
given_idem none = refl
given_idem (some []) = refl
given_idem (some (c ∷ s)) = refl

zero_of : (code : ℕ) → (code == 0) ≡ true → code ≡ 0
zero_of code h = ground arith

raise_unless-same : {S : Type 0} (b : Bool) (s t : S) → raise_unless b s ≡ (ok tt, t) → s ≡ t
raise_unless-same true s t h = ap (λ p. p.1) h
raise_unless-same false s t h = cc (ap (λ p. p.0) h)

module _ {F : Type 0} ⦃d : Float F⦄ (world : World F) (args : Args) (name : Option Text)
    (skip_delete : Bool) (attempt : ℤ) (attempt_type : Text) where
  -- The command line of the run with this answer of the world.
  abbrev pub words : Response F → Option Text → List Text
  words r test =
      build_test_command args test skip_delete
        (some (work_dir_of test attempt attempt_type r.work_timestamp))

  -- The first thing that a run does to the world is to start its program.
  abbrev pub Starts : Response F → Option Text → Shell F → Shell F → Type 0
  Starts r test s t =
      (environment : Option (Dict Text)) × (rest : List Event) × (t.events
        ≡ s.events ++ (ran (words r test) environment ∷ rest))

  start_run-Starts :
      (r : Response F) (test : Option Text) (s t : Shell F) (out : TestResult F)
      → start_run world args r test skip_delete attempt attempt_type s ≡ (ok out, t)
      → Starts r test s t
  start_run-Starts r test s t out h =
      let (environment, s1, e1, k1) =
        >>=-eq-ok (λ u. (setup_test_environment world args, u)) _ s h in
      let (a, s2, e2, k2) = >>=-eq-ok (raise_unless r.log_opens) _ s1 k1 in
      let (b, s3, e3, k3) = >>=-eq-ok (raise_unless r.starts) _ s2 k2 in
      let started = emit (ran (words r test) environment) s3 in
      let same : s3.events ≡ s.events =
        ap (λ (x : Shell F). x.events)
          (sym (raise_unless-same r.starts s2 s3 e3)
            ∙ sym (raise_unless-same r.log_opens s1 s2 e2)
            ∙ sym (ap (λ p. p.1) e1)) in
      let (added, grown, allowed) =
        EndsIn_ok
          (λ x u. Adds (MayDoHere world args r test skip_delete attempt attempt_type) started u) k3
          (finish_run_events world args r test skip_delete attempt attempt_type started) in
      (
        environment,
        added,
        grown
            ∙ append_assoc s3.events (ran (words r test) environment ∷ []) added
            ∙ ap (λ es. es ++ (ran (words r test) environment ∷ added)) same,
      )

  run-Starts :
      (s t : Shell F) (out : TestResult F)
      → run_single_test_suite world args name skip_delete attempt attempt_type s ≡ (ok out, t)
      → Starts (world.response s.calls) (given name) s t
  unfolding run_single_test_suite
  run-Starts s t out h =
      start_run-Starts (world.response s.calls) (given name) (record s { calls = suc s.calls }) t
        out h

  -- The options that scripts/run-tests reads from it.
  launched :
      (r : Response F)
      → args.extra_args ≡ []
      → IsValue (given name)
      → length (decimal_ℤ args.parallel) ≤ most_digits
      → parse_args (drop 1 (words r (given name)))
        ≡ parsed (
            requested args
              (given name)
              skip_delete
              (some (work_dir_of (given name) attempt attempt_type r.work_timestamp)))
  unfolding parse Options.run finish settle
  launched r none_extra value digits =
      let wd = work_dir_of (given name) attempt attempt_type r.work_timestamp in
      parse_args-build_test_command args (given name) skip_delete (some wd)
        (subst IsValue (sym (given_idem name)) value)
        (work_dir-IsValue wd (work_dir_of-dash (given name) attempt attempt_type r.work_timestamp))
        digits
      ∙ ap (parse options (requested args (given name) skip_delete (some wd))) none_extra

  module _ (script : Launcher.World) (l l' : Session) (code : ℕ) where
    -- Where there are no extra arguments, the name of the test does not start with a dash, the
    -- number of workers has at most 4300 digits, and the program that is started is
    -- scripts/run-tests: main of it, with the command line of the run, returned what the process
    -- returned. Then a run that returns a success has first started the program by that command
    -- line, which found the required commands; beku was the first program that it started, and
    -- ended with 0; stackablectl was the next one, ended with 0 and wrote no error to stderr; and
    -- the last one is kuttl, for the test that was asked for, and it ended with 0.
    pub run_single_test_suite-AllPass :
        (s t : Shell F) (out : TestResult F)
        → args.extra_args ≡ []
        → IsValue (given name)
        → length (decimal_ℤ args.parallel) ≤ most_digits
        → main script (words (world.response s.calls) (given name)) l ≡ (ok code, l')
        → (world.response s.calls).returncode ≡ pos code
        → run_single_test_suite world args name skip_delete attempt attempt_type s ≡ (ok out, t)
        → out.success ≡ true
        → Starts (world.response s.calls) (given name) s t
          × AllPass script
              (requested args (given name) skip_delete (
                some (
                  work_dir_of
                    (given name)
                    attempt
                    attempt_type
                    (world.response s.calls).work_timestamp)))
              l.commands
              l'.commands
    unfolding requested
    run_single_test_suite-AllPass s t out none_extra value digits ended same h passed =
        let r = world.response s.calls in
        let (report, status, step) =
          run_single_test_suite-Reports world args name skip_delete attempt attempt_type s t out
            h in
        let zero_code : code ≡ 0 = zero_of code (sym (ap is_zero same) ∙ sym status ∙ passed) in
        (
          run-Starts s t out h,
          main-AllPass script (words r (given name)) _ l l' (launched r none_extra value digits)
              refl (subst (λ c. main script (words r (given name)) l ≡ (ok c, l')) zero_code ended),
        )
