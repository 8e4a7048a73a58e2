-- ===== src/Operator/StatefulSet.antt =====
-- rust/operator-binary/src/restart_controller/statefulset.rs: the annotations that make the Pods of a
-- StatefulSet restart when what they refer to changes.
pub mod Mentions
pub mod References
pub mod Patches
pub mod Projected
pub mod Watch
use commons_operator.Prelude.{
  ℕ, ◌≡◌, Bool, true, false, not, ◌&&◌, Option, none, some, List, [], ◌∷◌, ◌++◌, Text, codes,
  text_eq, strip_prefix, map, keep, any, if◌then◌else◌,
}
use commons_operator.Prelude.Dict.{Dict}
use commons_operator.Operator.{Outcome, ok, err, is_some}
use commons_operator.Operator.Objects.{
  Volume, EnvVarSource, EnvVar, EnvFromSource, Container, PodSpec, ObjectMeta, PodTemplateSpec,
  StatefulSet, flattened, cons_some, to_list, flat_map_some, flat_map, and_then,
}
use commons_operator.Operator.Delayed.{InitDropped}
use commons_operator.Operator.Pod.{Action, await_change, requeue, KubeError, flatten}
use commons_operator.Operator.Tree.{extend}

-- `Store::get` of the reflector, by namespace and name.
abbrev pub Store : Type 0
Store = Text → Text → Option ObjectMeta

-- What a running controller has: what each of the two stores' `get` returns.
pub record Ctx : Type 0 where
  pub cms : Outcome Store InitDropped
  pub secrets : Outcome Store InitDropped

-- `V` is `error_boundary::InvalidObject` and `R` is `ObjectRef`.
pub data StatefulSetError (V R : Type 0) : Type 0 where
  invalid_stateful_set : V → StatefulSetError V R
  patch_failed : KubeError → R → StatefulSetError V R
  config_maps_uninitialized secrets_uninitialized : InitDropped → StatefulSetError V R

unfoldable pub find_pod_refs :
    PodSpec
    → (Volume → Option Text)
    → (EnvVar → Option Text)
    → (EnvFromSource → Option Text)
    → List Text
find_pod_refs pod_spec volume_ref env_var_ref env_from_ref =
    let pod_containers = pod_spec.containers ++ flattened pod_spec.init_containers in
    flat_map_some volume_ref (flattened pod_spec.volumes)
    ++ (flat_map_some env_var_ref
          (flat_map (λ (container : Container). flattened container.env) pod_containers)
        ++ flat_map_some env_from_ref
            (flat_map (λ (container : Container). flattened container.env_from) pod_containers))

abbrev pub pod_specs : StatefulSet → List PodSpec
pod_specs sts = to_list (and_then sts.spec (λ template. template.spec))

-- `cm_refs` and `secret_refs`
unfoldable pub cm_refs : StatefulSet → List Text
unfolding find_pod_refs
cm_refs sts =
    flat_map
      (λ pod_spec.
        find_pod_refs pod_spec (λ volume. volume.config_map)
          (λ env_var. and_then env_var.value_from (λ source. source.config_map_key_ref))
          (λ env_from. env_from.config_map_ref))
      (pod_specs sts)

unfoldable pub secret_refs : StatefulSet → List Text
unfolding find_pod_refs
secret_refs sts =
    flat_map
      (λ pod_spec.
        find_pod_refs pod_spec (λ volume. and_then volume.secret (λ name. name))
          (λ env_var. and_then env_var.value_from (λ source. source.secret_key_ref))
          (λ env_from. env_from.secret_ref))
      (pod_specs sts)

-- The values of the annotations whose keys start so: `ignored_cms` and `ignored_secrets`.
abbrev pub ignored : Text → StatefulSet → List Text
ignored prefix sts =
    map (λ entry. entry.1)
      (keep (λ entry. is_some (strip_prefix prefix entry.0)) (flatten sts.metadata.annotations))

abbrev pub ignored_cms : StatefulSet → List Text
ignored_cms = ignored (codes "restarter.stackable.tech/ignore-configmap.")

abbrev pub ignored_secrets : StatefulSet → List Text
ignored_secrets = ignored (codes "restarter.stackable.tech/ignore-secret.")

abbrev pub changes_ignored : Text
changes_ignored = codes "changes-ignored"

abbrev pub version_of : Option Text → Option Text → Bool → Text
version_of none resource_version is_ignored = changes_ignored
version_of (some uid) none is_ignored = changes_ignored
version_of (some uid) (some resource_version) true = changes_ignored
version_of (some uid) (some resource_version) false = uid ++ (codes "/" ++ resource_version)

abbrev pub object_version : Option ObjectMeta → Bool → Text
object_version none is_ignored = changes_ignored
object_version (some object) is_ignored = version_of object.uid object.resource_version is_ignored

-- The value of an annotation, of the referenced name.
unfoldable pub annotation_value : Text → Store → List Text → Text → Text
annotation_value ns store ignored_names name =
    object_version (store ns name) (any (λ n. text_eq n name) ignored_names)

abbrev pub cm_key : Text → Text
cm_key name = codes "configmap.restarter.stackable.tech/" ++ name

abbrev pub secret_key : Text → Text
secret_key name = codes "secret.restarter.stackable.tech/" ++ name

abbrev pub with_stores :
    {V R : Type 0} → StatefulSet → Text → Store → Store → Outcome (Dict Text) (StatefulSetError V R)
unfolding extend annotation_value cm_refs secret_refs
with_stores sts ns cms secrets = ok (
    extend
      (extend []
        (map (λ name. (cm_key name, annotation_value ns cms (ignored_cms sts) name)) (cm_refs sts)))
      (map (λ name. (secret_key name, annotation_value ns secrets (ignored_secrets sts) name))
        (secret_refs sts)))

abbrev pub with_cms :
    {V R : Type 0}
    → StatefulSet
    → Text
    → Store
    → Outcome Store InitDropped
    → Outcome (Dict Text) (StatefulSetError V R)
with_cms sts ns cms (err e) = err (secrets_uninitialized e)
with_cms sts ns cms (ok secrets) = with_stores sts ns cms secrets

abbrev pub in_namespace :
    {V R : Type 0}
    → StatefulSet
    → Text
    → Outcome Store InitDropped
    → Outcome Store InitDropped
    → Outcome (Dict Text) (StatefulSetError V R)
in_namespace sts ns (err e) secrets = err (config_maps_uninitialized e)
in_namespace sts ns (ok cms) secrets = with_cms sts ns cms secrets

-- Without a namespace the call panics, and has no result.
unfoldable pub get_updated_restarter_annotations :
    {V R : Type 0} → StatefulSet → Ctx → Option (Outcome (Dict Text) (StatefulSetError V R))
unfolding extend annotation_value cm_refs secret_refs
get_updated_restarter_annotations sts ctx =
    and_then sts.metadata.namespace (λ ns. some (in_namespace sts ns ctx.cms ctx.secrets))

-- What is applied to the StatefulSet on the server: its metadata, and the annotations of its template.
pub record Applied : Type 0 where
  pub name : Option Text
  pub namespace : Option Text
  pub uid : Option Text
  pub annotations : Dict Text

-- The result, with what was sent to the server.
abbrev pub Reconciled : Type 0 → Type 0 → Type 0 → Type 0
Reconciled V R S = Outcome (Action S) (StatefulSetError V R) × List Applied

-- `from_secs` is `Duration::from_secs`, `from_obj` is `ObjectRef::from_obj` and `erase`, and `patch` is
-- what the API server answers to a patch in a namespace.
module _ {V R S : Type 0} (from_obj : StatefulSet → R)
    (patch : Text → Text → Applied → Outcome (Unit {0}) KubeError) where
  abbrev pub after_patch :
      StatefulSet → Outcome (Unit {0}) KubeError → Outcome (Action S) (StatefulSetError V R)
  after_patch sts (ok u) = ok await_change
  after_patch sts (err e) = err (patch_failed e (from_obj sts))

  abbrev pub apply :
      StatefulSet → Text → Text → Outcome (Dict Text) (StatefulSetError V R) → Reconciled V R S
  apply sts ns name (err e) = (err e, [])
  apply sts ns name (ok annotations) =
      let applied : Applied = record {
        name = sts.metadata.name;
        namespace = sts.metadata.namespace;
        uid = sts.metadata.uid;
        annotations = annotations;
      } in
      (after_patch sts (patch ns name applied), applied ∷ [])

  abbrev pub reconcile_valid : StatefulSet → Ctx → Option (Reconciled V R S)
  unfolding get_updated_restarter_annotations
  reconcile_valid sts ctx = and_then sts.metadata.namespace (λ ns.
      and_then sts.metadata.name (λ name.
        and_then (get_updated_restarter_annotations {V = V} {R = R} sts ctx)
          (λ annotations. some (apply sts ns name annotations))))

  -- Without a namespace or a name the call panics.
  unfoldable pub reconcile : Outcome StatefulSet V → Ctx → Option (Reconciled V R S)
  unfolding get_updated_restarter_annotations
  reconcile (err invalid) ctx = some (err (invalid_stateful_set invalid), [])
  reconcile (ok sts) ctx = reconcile_valid sts ctx

module _ {V R S : Type 0} (from_secs : ℕ → S) where
  unfoldable pub error_policy : StatefulSetError V R → Action S
  error_policy (invalid_stateful_set e) = await_change
  error_policy (patch_failed e obj_ref) = requeue (from_secs 5)
  error_policy (config_maps_uninitialized e) = requeue (from_secs 5)
  error_policy (secrets_uninitialized e) = requeue (from_secs 5)
