-- ===== src/Operator/Webhook.antt =====
-- rust/operator-binary/src/webhooks/restarter_mutate_sts.rs: the patch that gives a new StatefulSet its
-- annotations before its Pods start.
pub mod Patched
pub mod Applies
use commons_operator.Prelude.{
  Bool, true, false, not, Option, none, some, List, [], ◌∷◌, ◌++◌, Text, codes, map,
}
use commons_operator.Prelude.Dict.{Dict}
use commons_operator.Operator.{Outcome, ok, err, is_some}
use commons_operator.Operator.Objects.{StatefulSet, PodTemplateSpec, ObjectMeta, and_then}
use commons_operator.Operator.StatefulSet.{Ctx, StatefulSetError, get_updated_restarter_annotations}

-- An operation `add` of `json_patch`, with the tokens of its path. The value is a string or the empty
-- object.
pub data Value : Type 0 where
  empty_object : Value
  string : Text → Value

pub record AddOperation : Type 0 where
  pub path : List Text
  pub value : Value

-- `AdmissionResponse`: one that is invalid, and one with a patch.
pub data AdmissionResponse : Type 0 where
  invalid : Text → AdmissionResponse
  with_patch : List AddOperation → AdmissionResponse

abbrev pub push_if : {A : Type 0} → Bool → A → List A → List A
push_if true x xs = x ∷ xs
push_if false x xs = xs

abbrev pub spec_path : List Text
spec_path = codes "spec" ∷ []

abbrev pub metadata_path : List Text
metadata_path = codes "spec" ∷ codes "template" ∷ codes "metadata" ∷ []

abbrev pub annotations_path : List Text
annotations_path = codes "spec" ∷ codes "template" ∷ codes "metadata" ∷ codes "annotations" ∷ []

abbrev pub metadata_of : Option PodTemplateSpec → Option ObjectMeta
metadata_of spec = and_then spec (λ template. template.metadata)

abbrev pub annotations_of : Option PodTemplateSpec → Option (List (Text × Text))
annotations_of spec = and_then (metadata_of spec) (λ metadata. metadata.annotations)

-- By whether the spec, the metadata of its template and the annotations there are present.
abbrev pub missing : Bool → Bool → Bool → List (List Text)
missing spec metadata annotations =
    push_if (not spec) spec_path
      (push_if (not metadata) metadata_path (push_if (not annotations) annotations_path []))

unfoldable pub paths_to_be_created : StatefulSet → List (List Text)
paths_to_be_created sts =
    missing (is_some sts.spec) (is_some (metadata_of sts.spec)) (is_some (annotations_of sts.spec))

abbrev pub create_path : List Text → AddOperation
create_path path = record { path = path; value = empty_object }

abbrev pub add_annotation : Text × Text → AddOperation
add_annotation entry = record { path = annotations_path ++ (entry.0 ∷ []); value = string entry.1 }

unfoldable pub patch_of : StatefulSet → Dict Text → List AddOperation
unfolding paths_to_be_created
patch_of sts annotations =
    map create_path (paths_to_be_created sts) ++ map add_annotation annotations

-- `display` prints an error, and `serialize_error` is what `AdmissionResponse::with_patch` says of a
-- patch that cannot be serialized.
module _ {V R : Type 0} (display : StatefulSetError V R → Text)
    (serialize_error : List AddOperation → Option Text) where
  abbrev pub serialized : List AddOperation → Option Text → AdmissionResponse
  serialized patch none = with_patch patch
  serialized patch (some message) =
      invalid (codes "failed to add patch to AdmissionResponse: " ++ message)

  abbrev pub respond : StatefulSet → Outcome (Dict Text) (StatefulSetError V R) → AdmissionResponse
  unfolding patch_of
  respond sts (err e) = invalid (codes "failed to get updated restarted annotations: " ++ display e)
  respond sts (ok annotations) =
      serialized (patch_of sts annotations) (serialize_error (patch_of sts annotations))

  -- `request.object`; no result stands for a panic.
  unfoldable pub add_sts_restarter_annotations_handler :
      Ctx → Option StatefulSet → Option AdmissionResponse
  unfolding patch_of get_updated_restarter_annotations
  add_sts_restarter_annotations_handler ctx none = some (
      invalid (
        codes
          "object (of type StatefulSet) missing - for operation CREATE it must be always present"))
  add_sts_restarter_annotations_handler ctx (some sts) =
      and_then (get_updated_restarter_annotations sts ctx)
        (λ annotations. some (respond sts annotations))
