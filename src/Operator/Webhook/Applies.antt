-- ===== src/Operator/Webhook/Applies.antt =====
-- Whether the patch of the webhook can be applied to the object that it is for.
use commons_operator.Prelude.{
  ◌≡◌, refl, ap, ◌∙◌, Bool, true, false, ◌&&◌, Option, none, some, List, [], ◌∷◌, ◌++◌, Text, codes,
  text_eq, any, map,
}
use commons_operator.Prelude.Dict.{Dict}
use commons_operator.Operator.{Outcome, ok, is_some}
use commons_operator.Operator.Pod.{KubeError}
use commons_operator.Operator.Objects.{StatefulSet, ObjectMeta, PodTemplateSpec, and_then}
use commons_operator.Operator.StatefulSet.{
  Store, Ctx, StatefulSetError, Applied, get_updated_restarter_annotations, after_patch, apply,
  Reconciled, reconcile,
}
use commons_operator.Operator.Tree.{extend}
use commons_operator.Operator.Webhook.Patched.{
  annotations_after, old_annotations, annotations_after-patch_of,
}
use commons_operator.Operator.StatefulSet.References.{get_updated_restarter_annotations_lem}
use commons_operator.Operator.Webhook.{
  AddOperation, Value, string, empty_object, with_patch, spec_path, metadata_path, annotations_path,
  create_path, add_annotation, patch_of, metadata_of, annotations_of, missing, respond, serialized,
  add_sts_restarter_annotations_handler, paths_to_be_created, push_if,
}

abbrev pub path_eq : List Text → List Text → Bool
path_eq [] [] = true
path_eq [] (y ∷ ys) = false
path_eq (x ∷ xs) [] = false
path_eq (x ∷ xs) (y ∷ ys) = text_eq x y && path_eq xs ys

abbrev pub parent : List Text → List Text
parent [] = []
parent (x ∷ []) = []
parent (x ∷ y ∷ xs) = x ∷ parent (y ∷ xs)

abbrev pub is_there : List (List Text) → List Text → Bool
is_there objects path = any (λ p. path_eq p path) objects

abbrev pub after_add : AddOperation → Value → List (List Text) → List (List Text)
after_add op empty_object objects = op.path ∷ objects
after_add op (string v) objects = objects

-- RFC 6902: an `add` needs the object that it adds to.
abbrev pub is_applicable : List (List Text) → List AddOperation → Bool
is_applicable objects [] = true
is_applicable objects (op ∷ ops) =
    is_there objects (parent op.path) && is_applicable (after_add op op.value objects) ops

-- The objects on the way to the annotations, of a StatefulSet as JSON. A spec has always a template.
abbrev pub objects_at : Bool → Bool → Bool → List (List Text)
objects_at false metadata annotations = [] ∷ []
objects_at true metadata annotations =
    push_if annotations annotations_path (
      push_if metadata metadata_path ((codes "spec" ∷ codes "template" ∷ []) ∷ spec_path ∷ [] ∷ []))

abbrev pub objects_of : StatefulSet → List (List Text)
objects_of sts =
    objects_at (is_some sts.spec) (is_some (metadata_of sts.spec))
      (is_some (annotations_of sts.spec))

added_applicable :
    (objects : List (List Text)) (annotations : Dict Text)
    → is_there objects annotations_path ≡ true
    → is_applicable objects (map add_annotation annotations) ≡ true
added_applicable objects [] h = refl
added_applicable objects (entry ∷ annotations) h = rw h (added_applicable objects annotations h)

abbrev IsRight : Dict Text → Bool → Bool → Bool → Type 0
IsRight added s m a =
    is_applicable (objects_at s m a) (map create_path (missing s m a) ++ map add_annotation added)
    ≡ s

by_annotations : (added : Dict Text) (a : Bool) → IsRight added true true a
unfolding text_eq
by_annotations added true = added_applicable _ added refl
by_annotations added false = added_applicable _ added refl

by_metadata :
    (added : Dict Text) (metadata : Option ObjectMeta)
    → IsRight added true
        (is_some metadata)
        (is_some (and_then metadata (λ metadata. metadata.annotations)))
unfolding text_eq
by_metadata added none = added_applicable _ added refl
by_metadata added (some metadata) = by_annotations added (is_some metadata.annotations)

by_spec :
    (added : Dict Text) (spec : Option PodTemplateSpec)
    → IsRight added (is_some spec) (is_some (metadata_of spec)) (is_some (annotations_of spec))
unfolding text_eq
by_spec added none = refl
by_spec added (some template) = by_metadata added template.metadata

patch_of-applicable :
    (sts : StatefulSet) (annotations : Dict Text)
    → is_applicable (objects_of sts) (patch_of sts annotations) ≡ is_some sts.spec
unfolding patch_of paths_to_be_created
patch_of-applicable sts annotations = by_spec annotations sts.spec

module _ {V R S : Type 0} (display : StatefulSetError V R → Text) (from_obj : StatefulSet → R)
    (patch : Text → Text → Applied → Outcome (Unit {0}) KubeError) where
  -- Where the StatefulSet has a namespace and a name, both stores are there and a patch can be
  -- serialized: the webhook answers with a patch after which the template has its old annotations and,
  -- over them, those that the controller applies at its next reconciliation in the same state. Each
  -- operation of the patch finds the object that it adds to exactly if the StatefulSet has a spec.
  pub handler-reconcile :
      (sts : StatefulSet) (ns name : Text) (cms secrets : Store)
      (serialize_error : List AddOperation → Option Text)
      → sts.metadata.namespace ≡ some ns
      → sts.metadata.name ≡ some name
      → ((ops : List AddOperation) → serialize_error ops ≡ none)
      → (applied : Applied) × (reconcile {V = V} {R = R} {S = S} from_obj patch
            (ok sts)
            (record { cms = ok cms; secrets = ok secrets })
          ≡ some (after_patch from_obj patch sts (patch ns name applied), applied ∷ []))
        × (ops : List AddOperation) × (add_sts_restarter_annotations_handler display serialize_error
              (record { cms = ok cms; secrets = ok secrets })
              (some sts)
            ≡ some (with_patch ops))
        × (annotations_after ops (old_annotations sts)
            ≡ extend (old_annotations sts) applied.annotations)
        × (is_applicable (objects_of sts) ops ≡ is_some sts.spec)
  unfolding reconcile add_sts_restarter_annotations_handler get_updated_restarter_annotations
      patch_of
  handler-reconcile sts ns name cms secrets serialize_error in_ns named serializes =
      let ctx : Ctx = record { cms = ok cms; secrets = ok secrets } in
      let (annotations, e, cm_part, secret_part, keys_part) =
        get_updated_restarter_annotations_lem {V = V} {R = R} sts ns cms secrets [] [] in_ns in
      let applied : Applied = record {
        name = sts.metadata.name;
        namespace = sts.metadata.namespace;
        uid = sts.metadata.uid;
        annotations = annotations;
      } in
      let sends : Text
          → Text
          → Outcome (Dict Text) (StatefulSetError V R)
          → Option (Reconciled V R S) =
        λ ns name a. some (apply from_obj patch sts ns name a) in
      let ops = patch_of sts annotations in
      (
        applied,
        ap
              (λ o. and_then o (λ ns.
                and_then sts.metadata.name
                  (λ name. and_then (get_updated_restarter_annotations sts ctx) (sends ns name))))
              in_ns
            ∙ (ap
                  (λ o.
                    and_then o (λ name.
                      and_then (get_updated_restarter_annotations sts ctx) (sends ns name)))
                  named
                ∙ ap (λ o. and_then o (sends ns name)) e),
        ops,
        ap (λ o. and_then o (λ a. some (respond display serialize_error sts a))) e
            ∙ ap (λ o. some (serialized display serialize_error ops o)) (serializes ops),
        annotations_after-patch_of sts annotations,
        patch_of-applicable sts annotations,
      )
