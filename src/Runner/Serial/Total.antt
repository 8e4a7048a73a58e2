-- ===== src/Runner/Serial/Total.antt =====
-- A serial retry returns, where runs do.
use commons_operator.Prelude.{
  ℕ, zero, suc, ◌+◌, ◌≡◌, sym, ap, subst, Bool, true, false, not, ◌&&◌, Option, some, List, [], ◌∷◌,
  ◌++◌, arith, Text, if◌then◌else◌, ◌==◌,
}
use commons_operator.Prelude.Int.{pos, leb_ℤ}
use commons_operator.Prelude.Dict.{Dict}
use commons_operator.Float.{Float}
use commons_operator.Exec.{Exec, ok, ◌>>=◌, pure, Returns, Returns-value, Returns-continue}
use commons_operator.Args.{Args}
use commons_operator.World.{World}
use commons_operator.Manager.{state_file}
use commons_operator.Results.{TestResult, serial}
use commons_operator.Executor.Command.{setup_test_environment}
use commons_operator.Executor.Run.{run_single_test_suite}
use commons_operator.Executor.Run.Total.{
  IsCreatable, Creatable, Answers, lift-Returns, save_json-Returns, run_single_test_suite-Returns,
}
use commons_operator.Runner.{Runner, with_manager, append_result}
use commons_operator.Runner.State.{save_state}
use commons_operator.Runner.State.Codec.{build_state_data}
use commons_operator.Runner.Serial.{serial_attempt, serial_attempts, retry_test_serially}
use commons_operator.Runner.Serial.Attempts.{Retries, retry_test_serially_lem}

module _ {F : Type 0} where
  -- No file of the runner is in a directory that is missing.
  abbrev pub HasFiles : Runner F → Type 0
  HasFiles s = Creatable s.shell

  save_state-Returns :
      (args : Args) (s : Runner F) → HasFiles s → Returns (λ b t. HasFiles t) (save_state args s)
  unfolding save_state
  save_state-Returns args s h =
      let m = s.shell.manager in
      lift-Returns IsCreatable HasFiles (λ disk. with_manager s (record m { disk = disk }))
        (λ disk h. h) _ (save_json-Returns (state_file m) (build_state_data args s) m.disk h)

module _ {F : Type 0} ⦃d : Float F⦄ (world : World F) (args : Args)
    (environment : Option (Dict Text)) (ready : setup_test_environment world args ≡ ok environment)
    (answers : Answers world) where
  serial_attempt-Returns :
      (name : Text) (skip_delete : Bool) (n : ℕ) (s : Runner F)
      → HasFiles s
      → Returns (λ b t. HasFiles t) (serial_attempt world args name skip_delete n s)
  unfolding serial_attempt
  serial_attempt-Returns name skip_delete n s h =
      let m = run_single_test_suite world args (some name) skip_delete (pos n) serial s.shell in
      Returns-continue (λ b t. HasFiles t) (λ b t. HasFiles t) m.0 _ (record s { shell = m.1 })
        (lift-Returns Creatable HasFiles (λ sh. record s { shell = sh }) (λ sh h. h) m
          (run_single_test_suite-Returns world args (some name) skip_delete (pos n) serial
            environment s.shell ready answers h))
        (λ r t h.
          let saved = save_state args (append_result r t) in
          Returns-continue (λ b t. HasFiles t) (λ b t. HasFiles t) saved.0 _ saved.1
            (save_state-Returns args (append_result r t) h) (λ b u h. h))

  -- The rest of the loop after an attempt, by its outcome.
  module _ (name : Text) (left n max : ℕ)
      (loop : (t : Runner F)
        → HasFiles t
        → Returns (λ b t. HasFiles t) (serial_attempts world args name left n max t)) where
    abbrev rest_of : Bool → Exec (Runner F) (List (TestResult F))
    rest_of b = elim b [ true ↦ pure [] | false ↦ serial_attempts world args name left n max ]

    rest-Returns :
        (r : TestResult F) (t : Runner F) (b : Bool)
        → HasFiles t
        → Returns (λ b t. HasFiles t) ((rest_of b >>= λ rest. pure (r ∷ rest)) t)
    rest-Returns r t true h = h
    rest-Returns r t false h =
        let m = serial_attempts world args name left n max t in
        Returns-continue (λ b t. HasFiles t) (λ b t. HasFiles t) m.0 _ m.1 (loop t h) (λ rs u h. h)

  serial_attempts-Returns :
      (name : Text) (left n max : ℕ) (s : Runner F)
      → HasFiles s
      → Returns (λ b t. HasFiles t) (serial_attempts world args name left n max s)
  unfolding serial_attempts
  serial_attempts-Returns name zero n max s h = h
  serial_attempts-Returns name (suc left) n max s h =
      let skip_delete = not args.delete_failed_namespaces && (n == max) in
      let m = serial_attempt world args name skip_delete n s in
      Returns-continue (λ b t. HasFiles t) (λ b t. HasFiles t) m.0 _ m.1
        (serial_attempt-Returns name skip_delete n s h)
        (λ r t h.
          rest-Returns name left (n + 1) max (serial_attempts-Returns name left (n + 1) max) r t
            r.success h)

  retry_test_serially-Returns :
      (name : Text) (max : ℕ) (s : Runner F)
      → HasFiles s
      → Returns (λ b t. HasFiles t) (retry_test_serially world args name (pos max) s)
  unfolding retry_test_serially
  retry_test_serially-Returns name zero s h = h
  retry_test_serially-Returns name (suc max) s h =
      let some_left : leb_ℤ (pos (suc max)) (pos 0) ≡ false = ground arith in
      let start =
        ap (λ b. (if b then pure [] else serial_attempts world args name (suc max) 1 (suc max)) s)
          some_left in
      subst (λ p. Returns (λ b t. HasFiles t) p) (sym start)
        (serial_attempts-Returns name (suc max) 1 (suc max) s h)

  -- Where the environment can be set up, every log can be opened, every process starts and files can
  -- be created: a serial retry returns. It has made the attempts 1, 2, … at this test and kept their
  -- results in the run's, in order; no attempt comes after one that passed, there are at most as many
  -- as are allowed, and fewer only if one passed.
  pub retry_test_serially_total :
      (c : ℕ) (name : Text) (max : ℕ) (s : Runner F)
      → HasFiles s
      → (rs : List (TestResult F)) × (s' : Runner F) × (retry_test_serially world args
            (c ∷ name)
            (pos max)
            s
          ≡ (ok rs, s'))
        × Retries (c ∷ name) 1 max rs
        × (s'.results ≡ s.results ++ rs)
  retry_test_serially_total c name max s h =
      let (rs, s', e, files) =
        Returns-value (λ b t. HasFiles t) (retry_test_serially world args (c ∷ name) (pos max) s)
          (retry_test_serially-Returns (c ∷ name) max s h) in
      let (retries, kept) = retry_test_serially_lem world args c name max s s' rs e in
      (rs, s', e, retries, kept)
