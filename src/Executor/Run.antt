-- ===== src/Executor/Run.antt =====
-- `run_single_test_suite` and `delete_test_namespace` of `TestExecutor`.
pub mod Outcome
pub mod Cleanup
pub mod Valid
pub mod Total
pub mod Launched
pub mod Recorded
use commons_operator.Prelude.{
  ℕ, suc, Bool, true, false, not, ◌&&◌, Option, none, some, List, [], ◌∷◌, ◌++◌, Text, codes,
  text_eq, if◌then◌else◌,
}
use commons_operator.Prelude.Int.{ℤ, is_zero}
use commons_operator.Prelude.Dict.{Dict}
use commons_operator.Float.{Float}
use commons_operator.Exec.{
  Exec, Result, ok, raised, file_not_found, os_error, pure, raise, modify, ◌>>=◌, ◌>>◌,
}
use commons_operator.Args.{Args}
use commons_operator.World.{World, Response}
use commons_operator.Results.{TestResult}
use commons_operator.Manager.{Manager, child, update_runtime_history}
use commons_operator.Executor.Command.{given, build_test_command, setup_test_environment}
use commons_operator.Executor.Naming.{create_safe_log_filename, work_dir_of}
use commons_operator.Executor.Log.{extract_test_namespace_from_log_file, extract_failed_step}

-- What the executor does to the world, beside the log file.
pub data Event : Type 0 where
  -- a process with these arguments and this environment
  ran : List Text → Option (Dict Text) → Event
  -- `kubectl delete namespace`
  deleted : Text → Event
  -- `shutil.rmtree`
  removed : Text → Event

pub record Shell (F : Type 0) : Type 0 where
  pub manager : Manager F
  -- The calls of `run_single_test_suite` so far.
  pub calls : ℕ
  pub events : List Event

abbrev pub full_suite : Text
full_suite = codes "full_suite"

abbrev pub raise_unless : {S : Type 0} → Bool → Exec S (Unit {0})
raise_unless true = pure tt
raise_unless false = raise file_not_found

abbrev pub deletes : Option ℤ → Bool
deletes none = false
deletes (some returncode) = is_zero returncode

abbrev pub name_or_full_suite : Option Text → Text
name_or_full_suite none = full_suite
name_or_full_suite (some name) = name

module _ {F : Type 0} where
  abbrev pub emit : Event → Shell F → Shell F
  emit e s = record s { events = s.events ++ e ∷ [] }

  abbrev pub on_manager : {A : Type 0} → Exec (Manager F) A → Exec (Shell F) A
  on_manager f s = let (r, m) = f s.manager in (r, record s { manager = m })

  -- The result tells whether `kubectl` returned 0; an exception is caught.
  unfoldable pub delete_test_namespace : Option ℤ → Text → Shell F → Bool × Shell F
  delete_test_namespace kubectl [] s = (false, s)
  delete_test_namespace kubectl (c ∷ namespace) s =
      (deletes kubectl, emit (deleted (c ∷ namespace)) s)

  -- Only the namespace of a passed run that was told not to delete it is deleted.
  abbrev pub clean_namespace :
      Response F → Option Text → Bool → Bool → Option Text → Shell F → Shell F
  clean_namespace r (some name) true true (some namespace) s =
      (delete_test_namespace r.kubectl namespace s).1
  clean_namespace r name skip_delete success namespace s = s

  -- An exception of `shutil.rmtree` is caught.
  abbrev pub clean_work_dir : World F → Text → Shell F → Shell F
  clean_work_dir world work_dir s = if world.exists work_dir then emit (removed work_dir) s else s

  -- The file of the log, for a run of one test and for one of the full suite.
  abbrev pub log_file_of : World F → Response F → Text → Option Text → ℤ → Text → Text
  log_file_of world r output_dir none attempt attempt_type =
      child output_dir
        (codes "full_suite_" ++ (attempt_type ++ (95 ∷ (r.log_timestamp ++ codes ".txt"))))
  log_file_of world r output_dir (some name) attempt attempt_type =
      child (child output_dir (codes "retries"))
        (create_safe_log_filename world.md5 name attempt attempt_type)

  -- The result of a process that ran.
  unfoldable pub result_of_run : World F → Response F → Text → Option Text → ℤ → Text → TestResult F
  result_of_run world r output_dir name attempt attempt_type =
      let success = is_zero r.returncode in
      record {
        test_name = name_or_full_suite name;
        attempt = attempt;
        attempt_type = attempt_type;
        success = success;
        namespace = extract_test_namespace_from_log_file r.log;
        duration = r.duration;
        log_file = some (log_file_of world r output_dir name attempt attempt_type);
        failed_step = if success then none else some (extract_failed_step world.is_word r.log);
      }

module _ {F : Type 0} ⦃d : Float F⦄ where
  -- The run time of a single test is recorded, whether it passed or not.
  abbrev pub record_runtime : Response F → Option Text → Exec (Shell F) (Unit {0})
  record_runtime r none = pure tt
  record_runtime r (some name) =
      if text_eq name full_suite
      then pure tt
      else on_manager (update_runtime_history r.now name r.duration)

  -- From the end of the process to the return.
  abbrev pub finish_run :
      World F
      → Response F
      → Option Text
      → Bool
      → Text
      → TestResult F
      → Exec (Shell F) (TestResult F)
  finish_run world r name skip_delete work_dir result = do
    record_runtime r name
    modify (clean_namespace r name skip_delete result.success result.namespace)
    modify (clean_work_dir world work_dir)
    pure result

  -- From the environment to the return.
  abbrev pub start_run :
      World F → Args → Response F → Option Text → Bool → ℤ → Text → Exec (Shell F) (TestResult F)
  start_run world args r name skip_delete attempt attempt_type = do
    environment ← (λ s. (setup_test_environment world args, s))
    raise_unless r.log_opens
    raise_unless r.starts
    let work_dir = work_dir_of name attempt attempt_type r.work_timestamp
    modify (emit (ran (build_test_command args name skip_delete (some work_dir)) environment))
    finish_run world r name skip_delete work_dir
        (result_of_run world r args.output_dir name attempt attempt_type)

  -- `run_single_test_suite(output_dir, test_name, skip_delete, attempt, attempt_type)`
  unfoldable pub run_single_test_suite :
      World F → Args → Option Text → Bool → ℤ → Text → Exec (Shell F) (TestResult F)
  run_single_test_suite world args test_name skip_delete attempt attempt_type s =
      start_run world args (world.response s.calls) (given test_name) skip_delete attempt
        attempt_type (record s { calls = suc s.calls })
