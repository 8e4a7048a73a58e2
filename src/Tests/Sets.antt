-- ===== src/Tests/Sets.antt =====
-- A StatefulSet with two containers, and one that has no spec.
use commons_operator.Prelude.{
  ℕ, ◌≡◌, true, ◌↔◌, refl, false, ◌||◌, Option, none, some, List, [], ◌∷◌, Text, codes, text_eq,
  any, if◌then◌else◌,
}
use commons_operator.Prelude.Dict.{Dict, lookup, contains}
use commons_operator.Operator.{Outcome, ok}
use commons_operator.Operator.Pod.{KubeError}
use commons_operator.Operator.Objects.{StatefulSet, ObjectMeta, Volume, VolumeProjection}
use commons_operator.Operator.StatefulSet.{
  Store, Applied, cm_refs, secret_refs, ignored_cms, ignored_secrets, annotation_value, cm_key,
  secret_key, get_updated_restarter_annotations, reconcile, after_patch,
}
use commons_operator.Operator.StatefulSet.Mentions.{mentions_cm, mentions_secret}
use commons_operator.Operator.StatefulSet.References.{
  value_if, get_updated_restarter_annotations_lem,
}
use commons_operator.Operator.StatefulSet.Patches.{annotation_value_iff, tracked}
use commons_operator.Operator.Tree.{extend}
use commons_operator.Operator.Webhook.Patched.{annotations_after, old_annotations}
use commons_operator.Operator.Webhook.{
  patch_of, AddOperation, with_patch, add_sts_restarter_annotations_handler,
}
use commons_operator.Operator.Webhook.Applies.{handler-reconcile, is_applicable, objects_of}

abbrev meta : Option (List (Text × Text)) → ObjectMeta
meta annotations = record {
  name = some (codes "trino");
  namespace = some (codes "default");
  uid = some (codes "7");
  resource_version = some (codes "9");
  annotations = annotations;
}

abbrev trino : StatefulSet
trino = record {
  metadata = meta (some ((codes "restarter.stackable.tech/ignore-configmap.0", codes "log") ∷ []));
  spec = some (record {
    metadata = none;
    spec = some (record {
      volumes = some (
          record { config_map = some (codes "log"); secret = none; projected = none }
          ∷ record { config_map = none; secret = some (some (codes "tls")); projected = none }
          ∷ []);
      containers =
          record {
            env = some (
                record {
                  value_from =
                      some
                        (record { config_map_key_ref = none; secret_key_ref = some (codes "db") });
                }
                ∷ []);
            env_from = none;
          }
          ∷ [];
      init_containers = some (
          record {
            env = none;
            env_from =
                some (record { config_map_ref = some (codes "config"); secret_ref = none } ∷ []);
          }
          ∷ []);
    });
  });
}

abbrev bare : StatefulSet
bare = record { metadata = meta none; spec = none }

abbrev maps : Store
maps ns name = if text_eq name (codes "tls") then none else some (meta none)

trino_annotations :
    get_updated_restarter_annotations {V = Text} {R = Text} trino
      (record { cms = ok maps; secrets = ok maps })
    ≡ some (
        ok (
          (codes "configmap.restarter.stackable.tech/config", codes "7/9")
          ∷ (codes "configmap.restarter.stackable.tech/log", codes "changes-ignored")
          ∷ (codes "secret.restarter.stackable.tech/db", codes "7/9")
          ∷ (codes "secret.restarter.stackable.tech/tls", codes "changes-ignored")
          ∷ []))
unfolding get_updated_restarter_annotations text_eq
trino_annotations = refl

get_updated_restarter_annotations_lem_example :
    (annotations : Dict Text) × (get_updated_restarter_annotations {V = Text} {R = Text} trino
        (record { cms = ok maps; secrets = ok maps })
      ≡ some (ok annotations))
    × (lookup (cm_key (codes "log")) annotations
        ≡ value_if
            (mentions_cm trino (codes "log"))
            (annotation_value (codes "default") maps (ignored_cms trino) (codes "log"))
            none)
    × (lookup (secret_key (codes "log")) annotations
        ≡ value_if
            (mentions_secret trino (codes "log"))
            (annotation_value (codes "default") maps (ignored_secrets trino) (codes "log"))
            none)
    × (contains (codes "app") annotations ≡ (
        any (λ n. text_eq (secret_key n) (codes "app")) (secret_refs trino)
        || (any (λ n. text_eq (cm_key n) (codes "app")) (cm_refs trino) || false)))
get_updated_restarter_annotations_lem_example =
    get_updated_restarter_annotations_lem trino (codes "default") maps maps (codes "log")
      (codes "app") refl

-- The sources of a projected volume, of any volume.
abbrev certificates : Volume → Option (Option (List VolumeProjection))
certificates volume =
    some (some (record { config_map = some (codes "ca"); secret = some (codes "key") } ∷ []))

annotation_value_iff_example :
    (annotation_value (codes "default") maps [] (codes "tls")
      ≡ annotation_value (codes "default") (λ ns name. none) [] (codes "tls"))
    ↔ (tracked (maps (codes "default") (codes "tls")) false ≡ tracked none false)
unfolding text_eq
annotation_value_iff_example =
    annotation_value_iff (codes "default") maps (λ ns name. none) [] (codes "tls") tt tt

abbrev accept : Text → Text → Applied → Outcome (Unit {0}) KubeError
accept ns name applied = ok tt

-- Without a spec, the second operation of the patch adds to a template that is not there.
bare_patch : is_applicable (objects_of bare) (patch_of bare []) ≡ false
unfolding patch_of text_eq
bare_patch = refl

handler-reconcile_example :
    (applied : Applied) × (reconcile {V = Text} {R = Text} {S = ℕ}
        (λ sts. codes "trino")
        accept
        (ok trino)
        (record { cms = ok maps; secrets = ok maps })
      ≡ some (
        after_patch
            (λ sts. codes "trino")
            accept
            trino
            (accept (codes "default") (codes "trino") applied),
        applied ∷ [],
      ))
    × (ops : List AddOperation) × (add_sts_restarter_annotations_handler {V = Text} {R = Text}
          (λ e. [])
          (λ ops. none)
          (record { cms = ok maps; secrets = ok maps })
          (some trino)
        ≡ some (with_patch ops))
    × (annotations_after ops (old_annotations trino)
        ≡ extend (old_annotations trino) applied.annotations)
    × (is_applicable (objects_of trino) ops ≡ true)
handler-reconcile_example =
    handler-reconcile (λ e. []) (λ sts. codes "trino") accept trino (codes "default")
      (codes "trino") maps maps (λ ops. none) refl refl (λ ops. refl)
