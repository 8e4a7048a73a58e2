-- ===== src/Manager.antt =====
-- `StateManager` of scripts/auto-retry-tests.py, its runtime history. The test run's own state is in
-- `Runner.State`.
pub mod Invariant
pub mod Reload
use commons_operator.Prelude.{
  ℕ, zero, suc, ◌+◌, Bool, true, false, Option, none, some, List, [], ◌∷◌, ◌++◌, map, Text, codes,
  keep, if◌then◌else◌, ltb,
}
use commons_operator.Prelude.Dict.{Dict, lookup, insert, contains}
use commons_operator.Float.{Float}
use commons_operator.Exec.{
  Exec, Result, ok, raised, key_error, type_error, pure, raise, or_raise, gets, modify, ◌>>=◌, ◌>>◌,
}
use commons_operator.Json.{
  Value, float, str, arr, obj, to_items, to_fields, is_truthy, as_dict, as_list, as_text, as_float,
  require, traverse,
}
use commons_operator.Disk.{Disk, load_json, save_json}
use commons_operator.Runtime.{RuntimeHistory, add_runtime, get_average_runtime}
use commons_operator.Runtime.Codec.{history_dict, history_of}

pub record Manager (F : Type 0) : Type 0 where
  pub output_dir : Text
  pub runtime_history : Dict (RuntimeHistory F)
  pub disk : Disk F

-- `directory / name`
abbrev pub child : Text → Text → Text
child directory name = directory ++ (47 ∷ name)

module _ {F : Type 0} where
  abbrev pub state_file : Manager F → Text
  state_file m = child m.output_dir (codes "test_run_state.json")

  abbrev pub runtime_file : Manager F → Text
  runtime_file m = child m.output_dir (codes "runtime_history.json")

  abbrev pub on_disk : {A : Type 0} → Exec (Disk F) A → Exec (Manager F) A
  on_disk f m = let (r, disk) = f m.disk in (r, record m { disk = disk })

  -- The dictionary that `save_runtime_history` writes.
  abbrev pub history_data : Dict (RuntimeHistory F) → Value F
  history_data d = obj (to_fields (map (λ e. (e.0, history_dict e.1)) d))

  unfoldable pub save_runtime_history : Exec (Manager F) Bool
  unfolding history_dict
  save_runtime_history m = on_disk (save_json (runtime_file m) (history_data m.runtime_history)) m

module _ {F : Type 0} ⦃d : Float F⦄ where
  abbrev pub store : Text → Option (RuntimeHistory F) → Manager F → Manager F
  store name none m = m
  store name (some h) m = record m { runtime_history = insert name h m.runtime_history }

  -- The loop over the entries of the file, and the count of the tests that were loaded. What is not
  -- a history raises a KeyError or a TypeError.
  unfoldable pub load_entries : Dict (Value F) → Exec (Manager F) ℕ
  load_entries [] = pure 0
  load_entries ((test_name, v) ∷ rest) = do
    found ← or_raise (history_of v) key_error
    modify (store test_name found)
    loaded ← load_entries rest
    pure (elim found [ none ↦ loaded | some h ↦ suc loaded ])

  abbrev pub load_value : Value F → Exec (Manager F) (Unit {0})
  load_value v = do
    entries ← or_raise (as_dict v) type_error
    loaded_count ← load_entries entries
    if ltb 0 loaded_count then (do saved ← save_runtime_history; pure tt) else pure tt

  abbrev pub load_from : Option (Value F) → Exec (Manager F) (Unit {0})
  load_from none = pure tt
  load_from (some v) = if is_truthy v then load_value v else pure tt

  -- The file is written again if anything was loaded. A file without JSON, or with an empty value,
  -- changes nothing; a value that has no `items` raises an AttributeError, a TypeError here.
  unfoldable pub load_runtime_history : Exec (Manager F) (Unit {0})
  unfolding load_entries save_runtime_history
  load_runtime_history m = load_from (load_json (runtime_file m) m.disk) m

  -- The history that `update_runtime_history` adds to: the one that there is, or an empty one.
  abbrev pub or_new : Text → Text → Option (RuntimeHistory F) → RuntimeHistory F
  or_new now name none = record { test_name = name; runtimes = []; last_updated = now }
  or_new now name (some h) = h

  unfoldable pub update_runtime_history : Text → Text → F → Exec (Manager F) (Unit {0})
  unfolding add_runtime save_runtime_history
  update_runtime_history now test_name duration = do
    modify (λ m. record m {
      runtime_history =
          insert test_name
            (add_runtime now duration (or_new now test_name (lookup test_name m.runtime_history)))
            m.runtime_history;
    })
    saved ← save_runtime_history
    pure tt

  unfoldable pub get_estimated_runtime : Text → Manager F → F
  unfolding get_average_runtime
  get_estimated_runtime test_name m = elim (lookup test_name m.runtime_history) [
    | some h ↦ get_average_runtime h
    | none ↦ d.of_ℕ 0
  ]
