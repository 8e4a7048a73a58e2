-- ===== src/Runner/Valid.antt =====
-- Methods of the runner that keep the run times valid, whether they return or raise.
use commons_operator.Prelude.{Bool, true, false, Option, Text, if◌then◌else◌}
use commons_operator.Prelude.Int.{ℤ}
use commons_operator.Float.{Float}
use commons_operator.Exec.{Exec}
use commons_operator.Args.{Args}
use commons_operator.World.{World}
use commons_operator.Executor.Run.{run_single_test_suite}
use commons_operator.Executor.Run.Valid.{HasValid, run_single_test_suite-HasValid}
use commons_operator.Runner.{Runner, in_shell}

module _ {F : Type 0} ⦃d : Float F⦄ where
  abbrev pub KeepsValid : {A : Type 0} → Exec (Runner F) A → Type 0
  KeepsValid m = (s : Runner F) → HasValid s.shell → HasValid (m s).1.shell

  abbrev pub V : Runner F → Type 0
  V s = HasValid s.shell

  -- A test that chooses between two methods.
  pub if_keeps :
      {A : Type 0} (b : Bool) (m n : Exec (Runner F) A)
      → KeepsValid m
      → KeepsValid n
      → KeepsValid (if b then m else n)
  if_keeps true m n hm hn = hm
  if_keeps false m n hm hn = hn

module _ {F : Type 0} ⦃d : Float F⦄ (world : World F) (args : Args) where
  pub suite_keeps :
      (name : Option Text) (skip_delete : Bool) (n : ℤ) (kind : Text)
      → KeepsValid (in_shell (run_single_test_suite world args name skip_delete n kind))
  suite_keeps name skip_delete n kind s h =
      run_single_test_suite-HasValid world args name skip_delete n kind s.shell h
