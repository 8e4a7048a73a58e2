-- ===== src/Tests/Resumed.antt =====
-- A run that is saved and resumed.
use commons_operator.Prelude.{◌≡◌, refl, ℕ, true, [], ◌∷◌}
use commons_operator.Prelude.Dict.{lookup}
use commons_operator.Exec.{ok}
use commons_operator.Args.{default_args}
use commons_operator.Disk.{save_json}
use commons_operator.Manager.{state_file}
use commons_operator.Runner.{Runner}
use commons_operator.Runner.State.{save_state, load_state}
use commons_operator.Runner.State.RoundTrip.{load_state-save_state, restored}
use commons_operator.Tests.Whole.{whole}
use commons_operator.Tests.Samples.{world, runner, smoke, smoke_summary}

abbrev stopped : Runner ℕ
stopped = record runner { test_summaries = (smoke, smoke_summary) ∷ [] }

abbrev saved : Runner ℕ
saved = (save_state default_args stopped).1

stopped_saves : save_state default_args stopped ≡ (ok true, saved)
unfolding save_state save_json
stopped_saves = refl

-- A runner that starts on the disk of the one before.
abbrev resumed : Runner ℕ
resumed = record saved { test_summaries = []; results = []; failed_tests = [] }

load_state-save_state_example :
    load_state world (state_file stopped.shell.manager) resumed ≡ (true, restored stopped resumed)
unfolding lookup
load_state-save_state_example =
    load_state-save_state world default_args stopped saved resumed refl refl (refl, tt)
      stopped_saves refl refl
