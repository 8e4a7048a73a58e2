-- ===== src/Launcher/Retry.antt =====
-- What scripts/run-tests makes of the command line that scripts/auto-retry-tests.py starts it with.
use commons_operator.Prelude.{
  ◌≤◌, Bool, true, false, not, ◌&&◌, Option, none, some, List, [], ◌∷◌, ◌++◌, Text, codes, length,
  drop, text_eq, All, if◌then◌else◌, ◌≡◌, refl, ap, ◌∙◌,
}
use commons_operator.Prelude.Int.{ℤ, pos, is_zero, decimal_ℤ}
use commons_operator.Prelude.Dict.{lookup}
use commons_operator.Args.{Args}
use commons_operator.Executor.Command.{given, is_given, option_args, build_test_command}
use commons_operator.Options.Number.{most_digits}
use commons_operator.Options.Number.Decimal.{int_of-decimal_ℤ}
use commons_operator.Options.Pieces.{
  is_dash, parse-unrecognised, classify-plain, classify-decimal_ℤ, no_dash-ne-end, run-takes,
  run-sets,
}
use commons_operator.Options.{and_then, classify, run, ready, finish, settle, parse}
use commons_operator.Exec.{ok}
use commons_operator.Launcher.{World, Session}
use commons_operator.Launcher.Main.{after_parsing, main}
use commons_operator.Launcher.Main.Clean.{IsTidy}
use commons_operator.Launcher.Main.Plan.{GoesWell, plan, after, main-plan}
use commons_operator.Launcher.Arguments.{
  Namespace, default_namespace, stored, store_parallel, store_test, store_work_dir, options,
  parse_args,
}

-- A text that is no option of a command line.
abbrev pub IsValue : Option Text → Type 0
IsValue none = Unit
IsValue (some s) = is_dash s ≡ false

abbrev parallel_of : Args → Option Text → ℤ
parallel_of args test =
    if not (is_zero args.parallel) && not (is_given test) then args.parallel else pos 2

abbrev work_dir_or_default : Option Text → Text
work_dir_or_default none = default_namespace.work_dir
work_dir_or_default (some s) = s

-- The options that the command line asks for, before the extra arguments.
unfoldable pub requested : Args → Option Text → Bool → Option Text → Namespace
requested args test_name skip_delete work_dir = record default_namespace {
  parallel = parallel_of args (given test_name);
  skip_delete = skip_delete;
  test = given test_name;
  work_dir = work_dir_or_default (given work_dir);
}

module _ (n : Namespace) (rest : List Text) where
  abbrev Leads : List Text → Namespace → Type 0
  Leads piece n' = run options (ready n) (piece ++ rest) ≡ run options (ready n') rest

  read_parallel :
      (i : ℤ)
      → length (decimal_ℤ i) ≤ most_digits
      → Leads (codes "--parallel" ∷ decimal_ℤ i ∷ []) (record n { parallel = i })
  unfolding classify lookup text_eq
  read_parallel i h =
      let (ne, e) = classify-decimal_ℤ options i refl in
      run-takes options (codes "--parallel") (decimal_ℤ i) rest n {read = store_parallel} refl refl
        ne e (ap (λ o. stored o (λ (j : ℤ). record n { parallel = j })) (int_of-decimal_ℤ i h))

  read_test :
      (v : Text) → is_dash v ≡ false → Leads (codes "--test" ∷ v ∷ []) (record n { test = some v })
  unfolding classify lookup text_eq
  read_test v h =
      run-takes options (codes "--test") v rest n {read = store_test} refl refl (no_dash-ne-end v h)
        (classify-plain options v h) refl

  read_work_dir :
      (v : Text)
      → is_dash v ≡ false
      → Leads (codes "--work-dir" ∷ v ∷ []) (record n { work_dir = v })
  unfolding classify lookup text_eq
  read_work_dir v h =
      run-takes options (codes "--work-dir") v rest n {read = store_work_dir} refl refl
        (no_dash-ne-end v h) (classify-plain options v h) refl

  read_skip_delete : Leads (codes "--skip-delete" ∷ []) (record n { skip_delete = true })
  unfolding classify lookup text_eq
  read_skip_delete = run-sets options (codes "--skip-delete") rest n refl refl

  lead_parallel :
      (b : Bool) (i : ℤ)
      → n.parallel ≡ pos 2
      → length (decimal_ℤ i) ≤ most_digits
      → Leads
          (if b then codes "--parallel" ∷ decimal_ℤ i ∷ [] else [])
          (record n { parallel = if b then i else pos 2 })
  unfolding run
  lead_parallel true i e h = read_parallel i h
  lead_parallel false i e h = λ j. run options (ready (record n { parallel = e j })) rest

  lead_skip_delete :
      (b : Bool)
      → n.skip_delete ≡ false
      → Leads (if b then codes "--skip-delete" ∷ [] else []) (record n { skip_delete = b })
  lead_skip_delete true e = read_skip_delete
  lead_skip_delete false e = λ j. run options (ready (record n { skip_delete = e j })) rest

  lead_test :
      (test : Option Text)
      → n.test ≡ none
      → IsValue test
      → Leads (option_args (codes "--test") test) (record n { test = test })
  lead_test none e h = λ j. run options (ready (record n { test = e j })) rest
  lead_test (some v) e h = read_test v h

  lead_work_dir :
      (work_dir : Option Text)
      → n.work_dir ≡ default_namespace.work_dir
      → IsValue work_dir
      → Leads
          (option_args (codes "--work-dir") work_dir)
          (record n { work_dir = work_dir_or_default work_dir })
  lead_work_dir none e h = λ j. run options (ready (record n { work_dir = e j })) rest
  lead_work_dir (some v) e h = read_work_dir v h

-- Where the test and the work directory do not start with a dash, and the number of workers has at
-- most 4300 digits: of the command line that build_test_command makes, parse_args of
-- scripts/run-tests makes what it makes of the extra arguments, if the options that are asked for
-- are its defaults.
pub parse_args-build_test_command :
    (args : Args) (test_name : Option Text) (skip_delete : Bool) (work_dir : Option Text)
    → IsValue (given test_name)
    → IsValue (given work_dir)
    → length (decimal_ℤ args.parallel) ≤ most_digits
    → parse_args (drop 1 (build_test_command args test_name skip_delete work_dir))
      ≡ parse options (requested args test_name skip_delete work_dir) args.extra_args
unfolding parse_args parse build_test_command requested
parse_args-build_test_command args test_name skip_delete work_dir ht hw hp =
    let n0 = default_namespace in
    let n1 = record n0 { parallel = parallel_of args (given test_name) } in
    let n2 = record n1 { skip_delete = skip_delete } in
    let n3 = record n2 { test = given test_name } in
    ap (λ p. and_then p finish)
      (lead_parallel n0 _ (not (is_zero args.parallel) && not (is_given (given test_name)))
          args.parallel refl hp
        ∙ lead_skip_delete n1 _ skip_delete refl
        ∙ lead_test n2 _ (given test_name) refl ht
        ∙ lead_work_dir n3 args.extra_args (given work_dir) refl hw)

module _ (args : Args) (test_name : Option Text) (skip_delete : Bool) (work_dir : Option Text)
    (ht : IsValue (given test_name)) (hw : IsValue (given work_dir))
    (hp : length (decimal_ℤ args.parallel) ≤ most_digits) (world : World) (s : Session) where
  reads :
      {vs : List Text}
      → args.extra_args ≡ vs
      → parse_args (drop 1 (build_test_command args test_name skip_delete work_dir))
        ≡ parse options (requested args test_name skip_delete work_dir) vs
  reads e =
      parse_args-build_test_command args test_name skip_delete work_dir ht hw hp
      ∙ ap (parse options (requested args test_name skip_delete work_dir)) e

  -- Where the test and the work directory do not start with a dash, the number of workers has at
  -- most 4300 digits and there are no extra arguments; where every program is there and ends with 0
  -- and no output, there is a release file for the options, and its temporary file can be written
  -- and removed, with a new name that has the prefix: the command line of build_test_command makes
  -- main of scripts/run-tests return 0, the programs of the plan for the options that it asks for
  -- were started in its order, the last one kuttl, and the temporary files are what they were.
  pub main-build_test_command :
      (path : Text)
      → args.extra_args ≡ []
      → GoesWell world (requested args test_name skip_delete work_dir) path
      → IsTidy world s.files
      → main world (build_test_command args test_name skip_delete work_dir) s
        ≡ (ok 0, after s (plan (requested args test_name skip_delete work_dir) path))
  unfolding parse run finish settle
  main-build_test_command path e well tidy =
      main-plan world (build_test_command args test_name skip_delete work_dir)
        (requested args test_name skip_delete work_dir) path s (reads e) well tidy

  -- Where the test and the work directory do not start with a dash and the number of workers has at
  -- most 4300 digits: with extra arguments, of which none starts with a dash, the command line of
  -- build_test_command makes main of scripts/run-tests leave with 2, and no program is started.
  pub main-extra_args :
      (v : Text) (vs : List Text)
      → args.extra_args ≡ v ∷ vs
      → All (λ w. is_dash w ≡ false) (v ∷ vs)
      → main world (build_test_command args test_name skip_delete work_dir) s ≡ (ok 2, s)
  unfolding main
  main-extra_args v vs e h =
      ap (λ p. after_parsing world p s)
        (reads e
          ∙ parse-unrecognised options (requested args test_name skip_delete work_dir) v vs h)
