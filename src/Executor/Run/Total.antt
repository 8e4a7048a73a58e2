-- ===== src/Executor/Run/Total.antt =====
-- A run returns, where its process starts and its files can be created.
use commons_operator.Prelude.{
  ℕ, suc, ◌≡◌, sym, subst, Bool, true, false, Option, none, some, [], ◌∷◌, Text, text_eq,
  if◌then◌else◌,
}
use commons_operator.Prelude.Int.{ℤ}
use commons_operator.Prelude.Dict.{Dict, insert, lookup}
use commons_operator.Float.{Float}
use commons_operator.Exec.{Result, ok, raised, file_not_found, pure, Returns, Returns-continue}
use commons_operator.Args.{Args}
use commons_operator.Json.{Value}
use commons_operator.Disk.{
  Disk, Fault, missing, denied, broken, json, plain, other, save_json, save_text,
}
use commons_operator.World.{World, Response}
use commons_operator.Results.{TestResult}
use commons_operator.Runtime.{add_runtime}
use commons_operator.Manager.{
  Manager, update_runtime_history, save_runtime_history, or_new, runtime_file, history_data,
}
use commons_operator.Executor.Command.{given, setup_test_environment}
use commons_operator.Executor.Run.{
  Shell, removed, full_suite, emit, on_manager, raise_unless, run_single_test_suite, start_run,
  finish_run, record_runtime, clean_namespace, clean_work_dir, delete_test_namespace,
}

abbrev pub is_missing : Option Fault → Bool
is_missing (some missing) = true
is_missing (some denied) = false
is_missing (some broken) = false
is_missing none = false

-- No file is in a directory that is missing.
abbrev pub IsCreatable : {F : Type 0} → Disk F → Type 0
IsCreatable disk = (path : Text) → is_missing (disk.write_fault path) ≡ false

-- Every log can be opened, and every process starts.
abbrev pub Answers : {F : Type 0} → World F → Type 0
Answers world = (n : ℕ) → ((world.response n).log_opens ≡ true) × ((world.response n).starts ≡ true)

-- A method of a part returns in the whole.
pub lift-Returns :
    {S T B : Type 0} (P : T → Type 0) (Q : S → Type 0) (put : T → S)
    → ((t : T) → P t → Q (put t))
    → (p : Result B × T) → Returns (λ b t. P t) p
    → Returns (λ b s. Q s) (p.0, put p.1)
lift-Returns P Q put f (ok b, t) h = f t h
lift-Returns P Q put f (raised e, t) h = h

module _ {F : Type 0} where
  pub save_json-Returns :
      (path : Text) (v : Value F) (disk : Disk F)
      → IsCreatable disk
      → Returns (λ b d. IsCreatable d) (save_json path v disk)
  unfolding save_json
  save_json-Returns path v disk h = written (disk.write_fault path) (h path)
    where
      written :
          (o : Option Fault)
          → is_missing o ≡ false
          → Returns {S = Disk F} {B = Bool}
              (λ b d. IsCreatable d)
              (elim o [
                | none ↦ (ok true, record disk { files = insert path (json v) disk.files })
                | some missing ↦ (raised file_not_found, disk)
                | some denied ↦ (ok false, disk)
                | some broken ↦ (ok false, record disk { files = insert path other disk.files })
              ])
      written none e = h
      written (some missing) e = cc e
      written (some denied) e = h
      written (some broken) e = h

  pub save_text-IsCreatable :
      (path text : Text) (disk : Disk F) → IsCreatable disk → IsCreatable (save_text path text disk)
  unfolding save_text
  save_text-IsCreatable path text disk h = written (disk.write_fault path)
    where
      written :
          (o : Option Fault)
          → IsCreatable (elim o [
            | none ↦ record disk { files = insert path (plain text) disk.files }
            | some missing ↦ disk
            | some denied ↦ disk
            | some broken ↦ record disk { files = insert path other disk.files }
          ])
      written none = h
      written (some missing) = h
      written (some denied) = h
      written (some broken) = h

  abbrev pub Creatable : Shell F → Type 0
  Creatable s = IsCreatable s.manager.disk

module _ {F : Type 0} ⦃d : Float F⦄ where
  update-Returns :
      (now name : Text) (duration : F) (m : Manager F)
      → IsCreatable m.disk
      → Returns
          (λ b (t : Manager F). IsCreatable t.disk)
          (update_runtime_history now name duration m)
  unfolding update_runtime_history save_runtime_history
  update-Returns now name duration m h =
      let updated : Manager F = record m {
        runtime_history =
            insert name (add_runtime now duration (or_new now name (lookup name m.runtime_history)))
              m.runtime_history;
      } in
      let saved = save_json (runtime_file updated) (history_data updated.runtime_history) m.disk in
      Returns-continue (λ b (t : Manager F). IsCreatable t.disk)
        (λ b (t : Manager F). IsCreatable t.disk) saved.0 _ (record updated { disk = saved.1 })
        (lift-Returns IsCreatable (λ (t : Manager F). IsCreatable t.disk)
          (λ disk. record updated { disk = disk }) (λ disk h. h) saved
          (save_json-Returns (runtime_file updated) (history_data updated.runtime_history) m.disk
            h))
        (λ b t h. h)

  record-Returns :
      (r : Response F) (name : Option Text) (s : Shell F)
      → Creatable s
      → Returns (λ b t. Creatable t) (record_runtime r name s)
  record-Returns r none s h = h
  record-Returns r (some name) s h = recorded (text_eq name full_suite)
    where
      recorded :
          (b : Bool)
          → Returns
              (λ b t. Creatable t)
              ((if b then pure tt else on_manager (update_runtime_history r.now name r.duration)) s)
      recorded true = h
      recorded false =
          lift-Returns (λ (m : Manager F). IsCreatable m.disk) Creatable
            (λ m. record s { manager = m }) (λ m h. h)
            (update_runtime_history r.now name r.duration s.manager)
            (update-Returns r.now name r.duration s.manager h)

  clean_namespace-Creatable :
      (r : Response F) (name : Option Text) (skip_delete success : Bool) (namespace : Option Text)
      (s : Shell F)
      → Creatable s
      → Creatable (clean_namespace r name skip_delete success namespace s)
  unfolding delete_test_namespace
  clean_namespace-Creatable r none skip_delete success namespace s h = h
  clean_namespace-Creatable r (some name) false success namespace s h = h
  clean_namespace-Creatable r (some name) true false namespace s h = h
  clean_namespace-Creatable r (some name) true true none s h = h
  clean_namespace-Creatable r (some name) true true (some []) s h = h
  clean_namespace-Creatable r (some name) true true (some (c ∷ n)) s h = h

  clean_work_dir-Creatable :
      (world : World F) (work_dir : Text) (s : Shell F)
      → Creatable s
      → Creatable (clean_work_dir world work_dir s)
  clean_work_dir-Creatable world work_dir s h = cleaned (world.exists work_dir)
    where
      cleaned : (b : Bool) → Creatable (if b then emit (removed work_dir) s else s)
      cleaned true = h
      cleaned false = h

  module _ (world : World F) (args : Args) (r : Response F) (name : Option Text)
      (skip_delete : Bool) (attempt : ℤ) (attempt_type : Text) (environment : Option (Dict Text))
      (ready : setup_test_environment world args ≡ ok environment) (opens : r.log_opens ≡ true)
      (starts : r.starts ≡ true) where
    finish_run-Returns :
        (work_dir : Text) (result : TestResult F) (s : Shell F)
        → Creatable s
        → Returns (λ b t. Creatable t) (finish_run world r name skip_delete work_dir result s)
    finish_run-Returns work_dir result s h =
        let m = record_runtime r name s in
        Returns-continue (λ b t. Creatable t) (λ b t. Creatable t) m.0 _ m.1
          (record-Returns r name s h)
          (λ b t h.
            clean_work_dir-Creatable world work_dir _
              (clean_namespace-Creatable r name skip_delete result.success result.namespace t h))

    start_run-Returns :
        (s : Shell F)
        → Creatable s
        → Returns
            (λ b t. Creatable t)
            (start_run world args r name skip_delete attempt attempt_type s)
    start_run-Returns s h =
        let Q : TestResult F → Shell F → Type 0 = λ b t. Creatable t in
        Returns-continue (λ b t. Creatable t) Q (setup_test_environment world args) _ s
          (subst (λ e. Returns (λ b t. Creatable t) (e, s)) (sym ready) h)
          λ environment t h.
            Returns-continue (λ b t. Creatable t) Q (raise_unless r.log_opens t).0 _
              (raise_unless r.log_opens t).1 (same_after r.log_opens opens t h)
              λ b u h.
                Returns-continue (λ b t. Creatable t) Q (raise_unless r.starts u).0 _
                  (raise_unless r.starts u).1 (same_after r.starts starts u h)
                  λ b v h. finish_run-Returns _ _ _ h
      where
        same_after :
            (b : Bool)
            → b ≡ true
            → (t : Shell F) → Creatable t
            → Returns (λ b t. Creatable t) (raise_unless b t)
        same_after true e t h = h
        same_after false e t h = cc e

  -- A run returns where its environment can be set up, its log can be opened, its process starts and
  -- files can be created; they still can be afterwards.
  pub run_single_test_suite-Returns :
      (world : World F) (args : Args) (name : Option Text) (skip_delete : Bool) (attempt : ℤ)
      (attempt_type : Text) (environment : Option (Dict Text)) (s : Shell F)
      → setup_test_environment world args ≡ ok environment
      → Answers world
      → Creatable s
      → Returns
          (λ b t. Creatable t)
          (run_single_test_suite world args name skip_delete attempt attempt_type s)
  unfolding run_single_test_suite
  run_single_test_suite-Returns world args name skip_delete attempt attempt_type environment s ready
        answers h =
      start_run-Returns world args (world.response s.calls) (given name) skip_delete attempt
        attempt_type environment ready (answers s.calls).0 (answers s.calls).1
        (record s { calls = suc s.calls }) h
