-- ===== src/Launcher/Main/Passed.antt =====
-- What an exit code of 0 says.
pub mod Installs
use commons_operator.Prelude.{
  ◌≡◌, refl, sym, ap, subst, ◌∙◌, Bool, true, false, not, List, [], ◌∷◌, ◌++◌, Option, none, some,
  Text, codes, length, drop, if◌then◌else◌, all, is_in, ◌||◌, ◌⊎◌, inl, inr,
}
use commons_operator.Prelude.Dict.{Dict}
use commons_operator.Prelude.Int.{ℤ}
use commons_operator.Exec.{Result, ok, raised, test_runner, pure, raise, ◌>>=◌, >>=-eq-ok}
use commons_operator.Executor.Command.{given}
use commons_operator.Options.{parsed}
use commons_operator.Launcher.{World, Command, Completed, Session, start, decode}
use commons_operator.Launcher.Arguments.{Namespace, parse_args}
use commons_operator.Launcher.Steps.{
  requirements, have_requirements, passes_check, lower, stackablectl_cmd, fail_if,
  maybe_install_release, beku_cmd, gen_tests, kuttl_cmd, prepare_namespace, run_tests,
}
use commons_operator.Launcher.Main.{
  lift, contents_for, make_file, patch, keep_result, with_release_file, run_steps, exit_code,
  after_parsing, main,
}
use commons_operator.Launcher.Main.Passed.Installs.{MayInstall, with_release_file-MayInstall}

-- Behind these programs another one was started, and it ended with 0.
abbrev pub Passes : World → List Command → Command → List Command → Type 0
Passes world before command commands =
    (completed : Completed) × (commands ≡ before ++ command ∷ [])
    × (world.process (length before) ≡ ok completed)
    × (passes_check completed ≡ true)

exit_code-zero : (r : Result (Unit {0})) → exit_code r ≡ ok 0 → r ≡ ok tt
exit_code-zero (ok tt) h = refl
exit_code-zero (raised test_runner) h = cc h
exit_code-zero (raised _) h = cc h

fail_if-passed : (b : Bool) (s t : Session) → fail_if (not b) s ≡ (ok tt, t) → (b ≡ true) × (s ≡ t)
fail_if-passed true s t h = (refl, ap (λ p. p.1) h)
fail_if-passed false s t h = cc (ap (λ p. p.0) h)

module _ (world : World) where
  -- A program that must end with 0, as the last part of a step.
  checked-Passes :
      (command : Command) (s t : Session)
      → (start world command >>= λ c. fail_if (not (passes_check c))) s ≡ (ok tt, t)
      → Passes world s.commands command t.commands
  unfolding start
  checked-Passes command s t h =
      let (c, u, e, k) =
        >>=-eq-ok (start world command) (λ c. fail_if (not (passes_check c))) s h in
      let (passed, same) = fail_if-passed (passes_check c) u t k in
      (
        c,
        sym (ap (λ (x : Session). x.commands) same) ∙ sym (ap (λ p. p.1.commands) e),
        ap (λ p. p.0) e,
        passed,
      )

  run_tests-Passes :
      (test : Option Text) (parallel : ℤ) (namespace : Option Text) (skip_delete : Bool)
      (work_dir : Text) (s t : Session)
      → run_tests world test parallel namespace skip_delete work_dir s ≡ (ok tt, t)
      → (before : List Command) × Passes world before
          (kuttl_cmd test parallel namespace skip_delete work_dir)
          t.commands
  unfolding run_tests
  run_tests-Passes test parallel namespace skip_delete work_dir s t h =
      let (a, u, e, k) = >>=-eq-ok (prepare_namespace world (given namespace)) _ s h in
      (u.commands, checked-Passes (kuttl_cmd test parallel namespace skip_delete work_dir) u t k)

  have_requirements-passed :
      (s t : Session)
      → have_requirements world s ≡ (ok tt, t)
      → (all world.which requirements ≡ true) × (s ≡ t)
  unfolding have_requirements
  have_requirements-passed s t h = passes (all world.which requirements) h
    where
      passes :
          (b : Bool)
          → (if b then pure {S = Session} {A = Unit {0}} tt else raise test_runner) s ≡ (ok tt, t)
          → (b ≡ true) × (s ≡ t)
      passes true e = (refl, ap (λ p. p.1) e)
      passes false e = cc (ap (λ p. p.0) e)

  tests_run :
      (opts : Namespace) (skip : Bool) (s t : Session)
      → skip ≡ false
      → (if skip
            then pure tt
            else run_tests world opts.test opts.parallel opts.namespace opts.skip_delete
                opts.work_dir)
          s
        ≡ (ok tt, t)
      → run_tests world opts.test opts.parallel opts.namespace opts.skip_delete opts.work_dir s
        ≡ (ok tt, t)
  tests_run opts true s t runs h = cc runs
  tests_run opts false s t runs h = h

  -- The requirements, the generated tests, the installation, and the tests that were run.
  abbrev pub AllPass : Namespace → List Command → List Command → Type 0
  AllPass opts before commands =
      (all world.which requirements ≡ true)
      × ((generated : List Command) × Passes world before
            (beku_cmd opts.test_suite opts.namespace opts.work_dir) generated
          × MayInstall world opts.skip_release opts.listener_class_preset generated)
      × ((prepared : List Command) × Passes world prepared
            (kuttl_cmd opts.test opts.parallel opts.namespace opts.skip_delete opts.work_dir)
            commands)

  run_steps-AllPass :
      (opts : Namespace) (s t : Session)
      → opts.skip_tests ≡ false
      → run_steps world opts s ≡ (ok tt, t)
      → AllPass opts s.commands t.commands
  unfolding run_steps gen_tests
  run_steps-AllPass opts s t runs h =
      let beku = beku_cmd opts.test_suite opts.namespace opts.work_dir in
      let (a, s1, e1, k1) = >>=-eq-ok (have_requirements world) _ s h in
      let (there, same) = have_requirements-passed s s1 e1 in
      let (b, s2, e2, k2) =
        >>=-eq-ok (gen_tests world opts.test_suite opts.namespace opts.work_dir) _ s1 k1 in
      let (c, s3, e3, k3) =
        >>=-eq-ok
          (with_release_file world opts.operator opts.skip_operator
            (λ f. maybe_install_release world opts.skip_release f opts.listener_class_preset))
          _ s2 k2 in
      (
        there,
        (
          s2.commands,
          subst (λ (x : Session). Passes world x.commands beku s2.commands) (sym same)
              (checked-Passes beku s1 s2 e2),
          with_release_file-MayInstall world opts.operator opts.skip_operator opts.skip_release
              opts.listener_class_preset s2 s3 e3,
        ),
        run_tests-Passes opts.test opts.parallel opts.namespace opts.skip_delete opts.work_dir s3 t
            (tests_run opts opts.skip_tests s3 t runs k3),
      )

  -- Where the tests are not skipped and main of scripts/run-tests returns 0: the required commands
  -- were there, beku was the first program that was started and it ended with 0; unless the release
  -- is skipped, stackablectl was the next one, it ended with 0 and wrote no error to stderr; and
  -- the last one is kuttl, for the tests that were asked for, and it ended with 0.
  pub main-AllPass :
      (argv : List Text) (opts : Namespace) (s t : Session)
      → parse_args (drop 1 argv) ≡ parsed opts
      → opts.skip_tests ≡ false
      → main world argv s ≡ (ok 0, t)
      → AllPass opts s.commands t.commands
  unfolding main
  main-AllPass argv opts s t e runs h =
      let ran : after_parsing world (parsed opts) s ≡ (ok 0, t) =
        ap (λ p. after_parsing world p s) (sym e) ∙ h in
      let returned = exit_code-zero (run_steps world opts s).0 (ap (λ p. p.0) ran) in
      run_steps-AllPass opts s t runs (λ i. (returned i, (ap (λ p. p.1) ran) i))
