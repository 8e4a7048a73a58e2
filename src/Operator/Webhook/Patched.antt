-- ===== src/Operator/Webhook/Patched.antt =====
-- The annotations of a template after the patch of the webhook.
use commons_operator.Prelude.{
  ◌≡◌, refl, ◌∙◌, Bool, true, false, ◌&&◌, Option, none, some, List, [], ◌∷◌, ◌++◌, Text, text_eq,
  map, if◌then◌else◌,
}
use commons_operator.Prelude.Dict.{Dict}
use commons_operator.Operator.{is_some}
use commons_operator.Operator.Tree.{tree_insert, extend}
use commons_operator.Operator.Objects.{ObjectMeta, PodTemplateSpec, StatefulSet, and_then}
use commons_operator.Operator.Webhook.{
  AddOperation, Value, string, empty_object, annotations_path, create_path, add_annotation,
  metadata_of, annotations_of, missing, patch_of, paths_to_be_created,
}

-- A path leads to the object of another one, or to one that holds it.
abbrev pub leads_to : List Text → List Text → Bool
leads_to [] path = true
leads_to (x ∷ xs) [] = false
leads_to (x ∷ xs) (y ∷ ys) = text_eq x y && leads_to xs ys

-- The key, if the path is that of an annotation.
abbrev pub key_after : List Text → List Text → Option Text
key_after [] [] = none
key_after [] (key ∷ []) = some key
key_after [] (x ∷ y ∷ path) = none
key_after (x ∷ xs) [] = none
key_after (x ∷ xs) (y ∷ path) = if text_eq x y then key_after xs path else none

-- RFC 6902: `add` puts a member into an object, in the place of one of that name.
abbrev pub add_to : List Text → Value → Dict Text → Dict Text
add_to path empty_object annotations = if leads_to path annotations_path then [] else annotations
add_to path (string v) annotations = elim (key_after annotations_path path) [
  | none ↦ annotations
  | some key ↦ tree_insert key v annotations
]

abbrev pub annotations_after : List AddOperation → Dict Text → Dict Text
annotations_after [] annotations = annotations
annotations_after (op ∷ ops) annotations =
    annotations_after ops (add_to op.path op.value annotations)

abbrev pub or_no_annotations : Option (List (Text × Text)) → Dict Text
or_no_annotations none = []
or_no_annotations (some annotations) = annotations

-- The annotations of the template as it came.
abbrev pub old_annotations : StatefulSet → Dict Text
old_annotations sts = or_no_annotations (annotations_of sts.spec)

after_strings :
    (added old : Dict Text) → annotations_after (map add_annotation added) old ≡ extend old added
unfolding text_eq extend
after_strings [] old = refl
after_strings (entry ∷ added) old = after_strings added (tree_insert entry.0 entry.1 old)

module _ (rest : List AddOperation) where
  -- What the patch creates is missing, so that no annotation is lost.
  abbrev LosesNone : Bool → Bool → Bool → Dict Text → Type 0
  LosesNone s m a old =
      annotations_after (map create_path (missing s m a) ++ rest) old ≡ annotations_after rest old

  of_annotations :
      (a : Option (List (Text × Text))) → LosesNone true true (is_some a) (or_no_annotations a)
  unfolding text_eq
  of_annotations none = refl
  of_annotations (some annotations) = refl

  of_metadata :
      (m : Option ObjectMeta)
      → LosesNone true
          (is_some m)
          (is_some (and_then m (λ metadata. metadata.annotations)))
          (or_no_annotations (and_then m (λ metadata. metadata.annotations)))
  unfolding text_eq
  of_metadata none = refl
  of_metadata (some metadata) = of_annotations metadata.annotations

  of_spec :
      (spec : Option PodTemplateSpec)
      → LosesNone
          (is_some spec)
          (is_some (metadata_of spec))
          (is_some (annotations_of spec))
          (or_no_annotations (annotations_of spec))
  unfolding text_eq
  of_spec none = refl
  of_spec (some template) = of_metadata template.metadata

-- The old annotations stay, and those of the patch are put over them.
pub annotations_after-patch_of :
    (sts : StatefulSet) (added : Dict Text)
    → annotations_after (patch_of sts added) (old_annotations sts)
      ≡ extend (old_annotations sts) added
unfolding patch_of paths_to_be_created
annotations_after-patch_of sts added =
    of_spec (map add_annotation added) sts.spec ∙ after_strings added (old_annotations sts)
