-- ===== src/Tests/Histories.antt =====
-- The run times of a test, and the file of them.
use commons_operator.Prelude.{
  ℕ, ◌+◌, ◌-◌, ◌≡◌, refl, ◌⊎◌, true, false, List, [], ◌∷◌, ◌++◌, codes, length, keep,
}
use commons_operator.Prelude.Dict.{lookup}
use commons_operator.Disk.{save_json}
use commons_operator.Exec.{ok}
use commons_operator.Runtime.{RuntimeHistory, is_tracked, max_runtime_history, add_runtime}
use commons_operator.Runtime.Record.{add_runtime_lem}
use commons_operator.Manager.{Manager, save_runtime_history, load_runtime_history}
use commons_operator.Manager.Invariant.{IsValid}
use commons_operator.Manager.Reload.{load-save_runtime_history, has_runs}
use commons_operator.Tests.Whole.{whole}
use commons_operator.Args.{default_args}
use commons_operator.Runner.Main.{run}
use commons_operator.Runner.Main.Valid.{run-IsValid}
use commons_operator.Tests.Samples.{world, runner, logging, logging_history, manager}

abbrev longer : RuntimeHistory ℕ
longer = record {
  test_name = logging;
  runtimes = 61 ∷ 35 ∷ 45 ∷ 90 ∷ [];
  last_updated = codes "now";
}

test_add_runtime : add_runtime (codes "now") 90 logging_history ≡ longer
unfolding add_runtime
test_add_runtime = refl

test_add_quick_failure : add_runtime (codes "now") 29 logging_history ≡ logging_history
unfolding add_runtime
test_add_quick_failure = refl

add_runtime_lem_example :
    (is_tracked {F = ℕ} 90 ≡ false)
      × (add_runtime (codes "now") 90 logging_history ≡ logging_history)
    ⊎ (is_tracked {F = ℕ} 90 ≡ true)
      × ((add_runtime (codes "now") 90 logging_history).last_updated ≡ codes "now")
      × ((add_runtime (codes "now") 90 logging_history).test_name ≡ logging_history.test_name)
      × ((oldest : List ℕ) × (oldest ++ (add_runtime (codes "now") 90 logging_history).runtimes
            ≡ logging_history.runtimes ++ 90 ∷ [])
          × (length oldest ≡ length logging_history.runtimes + 1 - max_runtime_history))
add_runtime_lem_example = add_runtime_lem (codes "now") 90 logging_history

manager-IsValid : IsValid manager
unfolding lookup
manager-IsValid = record { distinct = (refl, tt); slow = ((refl, (refl, (refl, tt))), tt) }

abbrev saved : Manager ℕ
saved = (save_runtime_history manager).1

saved_ok : save_runtime_history manager ≡ (ok true, saved)
unfolding save_runtime_history save_json
saved_ok = refl

load-save_runtime_history_example :
    (load_runtime_history (record saved { runtime_history = [] })).1.runtime_history
    ≡ keep has_runs manager.runtime_history
load-save_runtime_history_example =
    load-save_runtime_history manager saved manager-IsValid refl saved_ok

run-IsValid_example : IsValid (run world default_args runner).1.shell.manager
run-IsValid_example = run-IsValid world default_args runner manager-IsValid
