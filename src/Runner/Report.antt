-- ===== src/Runner/Report.antt =====
-- `ReportGenerator`: the report in JSON, and the two reports together. The text is in `Plain`.
pub mod Lines
pub mod Plain
pub mod Estimates
use commons_operator.Prelude.{Bool, [], ◌∷◌, Text, codes}
use commons_operator.Exec.{Exec, pure, modify, ◌>>=◌, ◌>>◌}
use commons_operator.Json.{Value, str, obj, to_fields}
use commons_operator.Args.{Args, build_configuration_dict}
use commons_operator.Disk.{save_json, save_text}
use commons_operator.World.{World}
use commons_operator.Manager.{child, history_data}
use commons_operator.Runner.{Runner, in_disk, with_manager}
use commons_operator.Runner.Report.Plain.{generate_comprehensive_report}
use commons_operator.Float.{Float}
use commons_operator.Runner.State.Codec.{of_summaries, of_results}

module _ {F : Type 0} where
  -- The dictionary of `save_detailed_json_report`; `now` is the end time.
  unfoldable pub report_data : Text → Args → Runner F → Value F
  unfolding build_configuration_dict
  report_data now args s = obj (
      to_fields (
        (codes "start_time", str s.start_time)
        ∷ (codes "end_time", str now)
        ∷ (codes "configuration", build_configuration_dict args)
        ∷ (codes "test_summaries", of_summaries s.test_summaries)
        ∷ (codes "all_results", of_results s.results)
        ∷ (codes "runtime_history", history_data s.shell.manager.runtime_history)
        ∷ []))

  unfoldable pub save_detailed_json_report : World F → Args → Exec (Runner F) Bool
  unfolding report_data
  save_detailed_json_report world args s =
      let now = (world.response s.shell.calls).now in
      in_disk
        (save_json (child s.shell.manager.output_dir (codes "detailed_report.json"))
          (report_data now args s))
        s

module _ {F : Type 0} ⦃d : Float F⦄ where
  -- An exception while the text report is written is caught.
  unfoldable pub save_text_report : World F → Args → Runner F → Runner F
  unfolding generate_comprehensive_report
  save_text_report world args s =
      let m = s.shell.manager in
      with_manager s (record m {
        disk =
            save_text (child m.output_dir (codes "test_report.txt"))
              (generate_comprehensive_report world args s) m.disk;
      })

  unfoldable pub generate_and_save_final_report : World F → Args → Exec (Runner F) (Unit {0})
  unfolding save_detailed_json_report save_text_report
  generate_and_save_final_report world args = do
    modify (save_text_report world args)
    saved ← save_detailed_json_report world args
    pure tt
