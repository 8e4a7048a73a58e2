-- ===== src/Launcher/Steps/Keeps.antt =====
-- The steps leave the temporary files alone.
use commons_operator.Prelude.{
  ◌≡◌, Bool, true, false, not, Option, none, some, Text, if◌then◌else◌, all,
}
use commons_operator.Prelude.Dict.{Dict}
use commons_operator.Prelude.Int.{ℤ}
use commons_operator.Exec.{Exec, continue_keeps, ◌>>=◌, pure}
use commons_operator.Executor.Command.{given}
use commons_operator.Launcher.{World, Command, Session, start, decode}
use commons_operator.Launcher.Steps.{
  requirements, have_requirements, passes_check, fail_if, stackablectl_cmd, maybe_install_release,
  beku_cmd, gen_tests, check_ns_cmd, create_ns_cmd, create_namespace, ensure_namespace_exists,
  prepare_namespace, kuttl_cmd, run_tests,
}

module _ (world : World) (files : Dict Text) where
  -- The files are these, whatever a step gives.
  abbrev pub Same : {A : Type 0} → Exec Session A → Type 0
  Same m = (s : Session) → s.files ≡ files → (m s).1.files ≡ files

  abbrev pub HasFiles : Session → Type 0
  HasFiles s = s.files ≡ files

  pub then_Same :
      {A B : Type 0} (m : Exec Session A) (f : A → Exec Session B)
      → Same m
      → ((a : A) → Same (f a))
      → Same (m >>= f)
  then_Same m f h k s e = continue_keeps HasFiles (m s).0 f (m s).1 (h s e) (λ a u. k a u)

  pub pure-Same : Same (pure {A = Unit {0}} tt)
  pure-Same s e = e

  pub if-Same :
      {A : Type 0} (b : Bool) (m n : Exec Session A) → Same m → Same n → Same (if b then m else n)
  if-Same true m n h k = h
  if-Same false m n h k = k

  start-Same : (command : Command) → Same (start world command)
  unfolding start
  start-Same command s e = e

  decode-Same : (stderr : Option Text) → Same (decode stderr)
  decode-Same none s e = e
  decode-Same (some text) s e = e

  fail_if-Same : (b : Bool) → Same (fail_if b)
  fail_if-Same true s e = e
  fail_if-Same false s e = e

  pub have_requirements-Same : Same (have_requirements world)
  unfolding have_requirements
  have_requirements-Same = if-Same (all world.which requirements) _ _ pure-Same (λ s e. e)

  pub maybe_install_release-Same :
      (skip : Bool) (path : Text) (preset : Option Text)
      → Same (maybe_install_release world skip path preset)
  unfolding maybe_install_release
  maybe_install_release-Same true path preset = pure-Same
  maybe_install_release-Same false path preset =
      then_Same (start world (stackablectl_cmd path preset)) _
        (start-Same (stackablectl_cmd path preset))
        λ c. then_Same (decode c.stderr) _ (decode-Same c.stderr) λ err. fail_if-Same _

  pub gen_tests-Same :
      (suite namespace : Option Text) (work_dir : Text)
      → Same (gen_tests world suite namespace work_dir)
  unfolding gen_tests
  gen_tests-Same suite namespace work_dir =
      then_Same (start world (beku_cmd suite namespace work_dir)) _
        (start-Same (beku_cmd suite namespace work_dir)) λ c. fail_if-Same (not (passes_check c))

  create_namespace-Same : (namespace : Text) → Same (create_namespace world namespace)
  create_namespace-Same namespace =
      then_Same (start world (create_ns_cmd namespace)) _ (start-Same (create_ns_cmd namespace))
        λ c.
          if-Same (passes_check c) _ _ pure-Same
            (then_Same (decode c.stderr) _ (decode-Same c.stderr) λ err. fail_if-Same _)

  ensure_namespace_exists-Same : (namespace : Text) → Same (ensure_namespace_exists world namespace)
  unfolding ensure_namespace_exists
  ensure_namespace_exists-Same namespace =
      then_Same (start world (check_ns_cmd namespace)) _ (start-Same (check_ns_cmd namespace))
        λ c. if-Same (passes_check c) _ _ pure-Same (create_namespace-Same namespace)

  prepare_namespace-Same : (o : Option Text) → Same (prepare_namespace world o)
  prepare_namespace-Same none = pure-Same
  prepare_namespace-Same (some namespace) = ensure_namespace_exists-Same namespace

  pub run_tests-Same :
      (test : Option Text) (parallel : ℤ) (namespace : Option Text) (skip_delete : Bool)
      (work_dir : Text)
      → Same (run_tests world test parallel namespace skip_delete work_dir)
  unfolding run_tests
  run_tests-Same test parallel namespace skip_delete work_dir =
      then_Same (prepare_namespace world (given namespace)) _
        (prepare_namespace-Same (given namespace))
        λ u.
          then_Same (start world (kuttl_cmd test parallel namespace skip_delete work_dir)) _
            (start-Same (kuttl_cmd test parallel namespace skip_delete work_dir))
            λ c. fail_if-Same (not (passes_check c))
