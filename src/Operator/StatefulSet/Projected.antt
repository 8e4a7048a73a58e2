-- ===== src/Operator/StatefulSet/Projected.antt =====
-- The projected volumes of a template, whose sources
-- rust/operator-binary/src/restart_controller/statefulset.rs does not look at.
use commons_operator.Prelude.{Option, none, some, List, map}
use commons_operator.Operator.Objects.{
  Volume, VolumeProjection, PodSpec, PodTemplateSpec, StatefulSet,
}

module _ (sources : Volume → Option (Option (List VolumeProjection))) where
  abbrev pub project_volume : Volume → Volume
  project_volume volume = record volume { projected = sources volume }

  abbrev pub project_volumes : Option (List Volume) → Option (List Volume)
  project_volumes none = none
  project_volumes (some volumes) = some (map project_volume volumes)

  abbrev pub project_pod : Option PodSpec → Option PodSpec
  project_pod none = none
  project_pod (some pod_spec) =
      some (record pod_spec { volumes = project_volumes pod_spec.volumes })

  abbrev pub project_template : Option PodTemplateSpec → Option PodTemplateSpec
  project_template none = none
  project_template (some template) = some (record template { spec = project_pod template.spec })

  -- The StatefulSet with other projected sources in each volume of its template.
  abbrev pub project : StatefulSet → StatefulSet
  project sts = record sts { spec = project_template sts.spec }
