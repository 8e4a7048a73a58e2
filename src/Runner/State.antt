-- ===== src/Runner/State.antt =====
-- The test run's state in a file, for resuming: `build_state_data`, `save_state`, `load_state` and
-- `load_failed_tests_from_state` of `StateManager`.
pub mod Codec
pub mod RoundTrip
pub mod Latest
use commons_operator.Prelude.{
  ℕ, Bool, true, false, not, Option, none, some, List, [], ◌∷◌, map, Text, codes, if◌then◌else◌,
}
use commons_operator.Prelude.Int.{ℤ}
use commons_operator.Prelude.Dict.{Dict, lookup, insert}
use commons_operator.Float.{Float}
use commons_operator.Exec.{
  Exec, Result, ok, raised, key_error, value_error, pure, raise, or_raise, gets, modify, ◌>>=◌,
  ◌>>◌,
}
use commons_operator.Json.{
  Value, is_truthy, as_dict, as_list, as_text, as_int, as_texts, as_optional,
}
use commons_operator.Args.{Args, build_configuration_dict}
use commons_operator.World.{World}
use commons_operator.Disk.{load_json, save_json}
use commons_operator.Manager.{Manager, state_file}
use commons_operator.Results.{TestResult, TestSummary}
use commons_operator.Runner.{Runner, in_disk}
use commons_operator.Runner.State.Codec.{
  build_state_data, ints_of, summary_entries, results_of, item, item_or,
}

abbrev pub succeeded : Result (Unit {0}) → Bool
succeeded (ok x) = true
succeeded (raised e) = false

module _ {F : Type 0} where
  unfoldable pub save_state : Args → Exec (Runner F) Bool
  unfolding build_state_data
  save_state args s = in_disk (save_json (state_file s.shell.manager) (build_state_data args s)) s

module _ {F : Type 0} ⦃d : Float F⦄ where
  -- The loop over the summaries: each one is put into the runner's dictionary as it is read.
  unfoldable pub restore_summaries : Dict (Value F) → Exec (Runner F) (Unit {0})
  restore_summaries [] = pure tt
  restore_summaries ((name, v) ∷ rest) = do
    summary ← or_raise (summary_entries v) key_error
    modify (λ s. record s { test_summaries = insert name summary s.test_summaries })
    restore_summaries rest

  -- The `try` block, in its order. What is restored before an exception stays restored.
  unfoldable pub restore_state : World F → Dict (Value F) → Exec (Runner F) (Unit {0})
  unfolding restore_summaries
  restore_state world state_data = do
    start_time ← or_raise (item as_text (codes "start_time") state_data) key_error
    if world.is_iso start_time then pure tt else raise value_error
    modify (λ s. record s { start_time = start_time })
    failed_tests ← or_raise (item as_texts (codes "failed_tests") state_data) key_error
    modify (λ s. record s { failed_tests = failed_tests })
    parallel_done ← or_raise (item as_int (codes "parallel_attempts_done") state_data) key_error
    modify (λ s. record s { parallel_attempts_done = parallel_done })
    serial_done ← or_raise (item ints_of (codes "serial_attempts_done") state_data) key_error
    modify (λ s. record s { serial_attempts_done = serial_done })
    log ← or_raise (item_or as_optional none (codes "initial_result_log") state_data) key_error
    modify (λ s. record s { initial_result_log = log })
    summaries ← or_raise (item as_dict (codes "test_summaries") state_data) key_error
    restore_summaries summaries
    results ← or_raise (item results_of (codes "all_results") state_data) key_error
    modify (λ s. record s { results = results })

  -- `except Exception`: the exception becomes the result `False`. A value that is no dictionary
  -- raises where its first key is read.
  abbrev pub restore_from : World F → Option (Value F) → Runner F → Bool × Runner F
  restore_from world none s = (false, s)
  restore_from world (some v) s =
      if is_truthy v
      then (let (r, s') =
            (do state_data ← or_raise (as_dict v) key_error; restore_state world state_data) s in
          (succeeded r, s'))
      else (false, s)

  unfoldable pub load_state : World F → Text → Runner F → Bool × Runner F
  unfolding restore_state
  load_state world path s = restore_from world (load_json path s.shell.manager.disk) s

  -- `state_data.get("failed_tests", [])`
  abbrev pub names_in : Option (Dict (Value F)) → Result (List Text)
  names_in none = raised key_error
  names_in (some state_data) = elim (item_or as_texts [] (codes "failed_tests") state_data) [
    | some names ↦ ok names
    | none ↦ raised key_error
  ]

  abbrev pub failed_tests_of : Option (Value F) → Result (List Text)
  failed_tests_of none = ok []
  failed_tests_of (some v) = if is_truthy v then names_in (as_dict v) else ok []

  -- `max(files, key=…)`: a later file replaces the one that is held only if it is newer.
  unfoldable pub newest : World F → Text → List Text → Text
  newest world held [] = held
  newest world held (path ∷ rest) =
      newest world (if d.lt (world.mtime held) (world.mtime path) then path else held) rest

  abbrev pub latest_of : World F → List Text → Option Text
  latest_of world [] = none
  latest_of world (path ∷ rest) = some (newest world path rest)

  unfoldable pub find_latest_state_file : World F → Manager F → Option Text
  unfolding newest
  find_latest_state_file world m = latest_of world (world.state_files m.output_dir)

  abbrev pub path_or_latest : World F → Option Text → Manager F → Option Text
  path_or_latest world none m = find_latest_state_file world m
  path_or_latest world (some path) m = some path

  unfoldable pub load_failed_tests_from_state : World F → Option Text → Exec (Runner F) (List Text)
  unfolding find_latest_state_file
  load_failed_tests_from_state world state_file s =
      let m = s.shell.manager in
      elim (path_or_latest world state_file m) [
        | none ↦ (ok [], s)
        | some path ↦ (failed_tests_of (load_json path m.disk), s)
      ]
