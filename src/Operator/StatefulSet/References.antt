-- ===== src/Operator/StatefulSet/References.antt =====
-- Which annotations the template of a StatefulSet gets.
use commons_operator.Prelude.{
  ◌≡◌, refl, ap, ◌∙◌, inl, inr, Bool, true, false, ◌||◌, Option, none, some, List, [], ◌∷◌, ◌++◌,
  arith, Text, codes, text_eq, text_eq-cases, any, map, if◌then◌else◌,
}
use commons_operator.Prelude.Dict.{Dict, lookup, contains}
use commons_operator.Operator.{ok, is_some}
use commons_operator.Operator.Tree.{extend, tree_insert, lookup-tree_insert}
use commons_operator.Operator.StatefulSet.Mentions.{
  refers, mentions_cm, mentions_secret, refers-cm_refs, refers-secret_refs,
}
use commons_operator.Operator.Objects.{StatefulSet, and_then}
use commons_operator.Operator.StatefulSet.{
  Store, cm_refs, secret_refs, ignored_cms, ignored_secrets, annotation_value, cm_key, secret_key,
  get_updated_restarter_annotations, in_namespace,
}

text_eq-append : (p s t : Text) → text_eq (p ++ s) (p ++ t) ≡ text_eq s t
unfolding text_eq
text_eq-append [] s t = refl
text_eq-append (c ∷ p) s t = ground (arith, text_eq-append p s t)

-- An annotation is there if the name is referenced.
abbrev pub value_if : Bool → Text → Option Text → Option Text
value_if b value other = if b then some value else other

contains-tree_insert :
    (k key v : Text) (d : Dict Text)
    → contains key (tree_insert k v d) ≡ (text_eq k key || contains key d)
contains-tree_insert k key v d =
    ap is_some (lookup-tree_insert k key v d) ∙ either (text_eq k key) (lookup key d)
  where
    either : (b : Bool) (o : Option Text) → is_some (value_if b v o) ≡ (b || is_some o)
    either true o = refl
    either false o = refl

module _ (f : Text → Text) where
  lookup-extend :
      (p : Text) (d : Dict Text) (names : List Text) (name : Text)
      → lookup (p ++ name) (extend d (map (λ n. (p ++ n, f n)) names))
        ≡ value_if (refers names name) (f name) (lookup (p ++ name) d)
  unfolding extend
  lookup-extend p d [] name = refl
  lookup-extend p d (n ∷ names) name =
      lookup-extend p (tree_insert (p ++ n) (f n) d) names name
      ∙ (ap (λ o. value_if (refers names name) (f name) o)
            (lookup-tree_insert (p ++ n) (p ++ name) (f n) d)
          ∙ elim (text_eq-cases n name) [
            | inl (e, same) ↦ rw (text_eq-append p n name, e, same) (found (refers names name))
            | inr (e, other) ↦ rw (text_eq-append p n name, e) refl
          ])
    where
      found : (b : Bool) → value_if b (f name) (some (f name)) ≡ some (f name)
      found true = refl
      found false = refl

  lookup-extend_other :
      (p : Text) (d : Dict Text) (names : List Text) (key : Text)
      → any (λ n. text_eq (p ++ n) key) names ≡ false
      → lookup key (extend d (map (λ n. (p ++ n, f n)) names)) ≡ lookup key d
  unfolding extend
  lookup-extend_other p d [] key h = refl
  lookup-extend_other p d (n ∷ names) key h =
      let not_here : text_eq (p ++ n) key ≡ false = ground arith in
      lookup-extend_other p (tree_insert (p ++ n) (f n) d) names key (ground arith)
      ∙ (lookup-tree_insert (p ++ n) key (f n) d
          ∙ ap (λ b. value_if b (f n) (lookup key d)) not_here)

  contains-extend :
      (p : Text) (d : Dict Text) (names : List Text) (key : Text)
      → contains key (extend d (map (λ n. (p ++ n, f n)) names))
        ≡ (any (λ n. text_eq (p ++ n) key) names || contains key d)
  unfolding extend
  contains-extend p d [] key = refl
  contains-extend p d (n ∷ names) key =
      contains-extend p (tree_insert (p ++ n) (f n) d) names key
      ∙ (ap (λ b. any (λ n. text_eq (p ++ n) key) names || b)
            (contains-tree_insert (p ++ n) key (f n) d)
          ∙ reordered (any (λ n. text_eq (p ++ n) key) names) (text_eq (p ++ n) key)
              (contains key d))
    where
      reordered : (a b c : Bool) → (a || (b || c)) ≡ (b || a || c)
      reordered a b c = ground arith

cm_key-other :
    (name : Text) (names : List Text)
    → any (λ n. text_eq (secret_key n) (cm_key name)) names ≡ false
unfolding text_eq
cm_key-other name [] = refl
cm_key-other name (n ∷ names) = cm_key-other name names

secret_key-other :
    (name : Text) (names : List Text)
    → any (λ n. text_eq (cm_key n) (secret_key name)) names ≡ false
unfolding text_eq
secret_key-other name [] = refl
secret_key-other name (n ∷ names) = secret_key-other name names

module _ {V R : Type 0} (sts : StatefulSet) (ns : Text) (cms secrets : Store) where
  -- Where the StatefulSet has a namespace and both stores are there: annotations are computed, and
  -- they have one for each ConfigMap and each Secret that the template of the Pods refers to, as
  -- the source of a volume or from the environment of any container, with the version of that
  -- object, and no other key. The sources of a projected volume do not count.
  pub get_updated_restarter_annotations_lem :
      (name key : Text)
      → sts.metadata.namespace ≡ some ns
      → (annotations : Dict Text) × (get_updated_restarter_annotations {V = V} {R = R} sts
            (record { cms = ok cms; secrets = ok secrets })
          ≡ some (ok annotations))
        × (lookup (cm_key name) annotations
            ≡ value_if (mentions_cm sts name) (annotation_value ns cms (ignored_cms sts) name) none)
        × (lookup (secret_key name) annotations
            ≡ value_if
                (mentions_secret sts name)
                (annotation_value ns secrets (ignored_secrets sts) name)
                none)
        × (contains key annotations ≡ (
            any (λ n. text_eq (secret_key n) key) (secret_refs sts)
            || (any (λ n. text_eq (cm_key n) key) (cm_refs sts) || false)))
  unfolding get_updated_restarter_annotations lookup
  get_updated_restarter_annotations_lem name key h = (
    extend of_cms (map (λ n. (secret_key n, secret_value n)) (secret_refs sts)),
    ap (λ o. and_then o (λ ns. some (in_namespace sts ns (ok cms) (ok secrets)))) h,
    lookup-extend_other secret_value (codes "secret.restarter.stackable.tech/") of_cms
          (secret_refs sts) (cm_key name) (cm_key-other name (secret_refs sts))
        ∙ (lookup-extend cm_value (codes "configmap.restarter.stackable.tech/") [] (cm_refs sts)
              name
            ∙ ap (λ b. value_if b (cm_value name) none) (refers-cm_refs name sts)),
    lookup-extend secret_value (codes "secret.restarter.stackable.tech/") of_cms (secret_refs sts)
          name
        ∙ ap (λ o. value_if (refers (secret_refs sts) name) (secret_value name) o)
            (lookup-extend_other cm_value (codes "configmap.restarter.stackable.tech/") []
              (cm_refs sts) (secret_key name) (secret_key-other name (cm_refs sts)))
        ∙ ap (λ b. value_if b (secret_value name) none) (refers-secret_refs name sts),
    contains-extend secret_value (codes "secret.restarter.stackable.tech/") of_cms (secret_refs sts)
          key
        ∙ ap (λ b. any (λ n. text_eq (secret_key n) key) (secret_refs sts) || b)
            (contains-extend cm_value (codes "configmap.restarter.stackable.tech/") [] (cm_refs sts)
              key),
  )
    where
      cm_value : Text → Text
      cm_value = annotation_value ns cms (ignored_cms sts)

      secret_value : Text → Text
      secret_value = annotation_value ns secrets (ignored_secrets sts)

      of_cms : Dict Text
      of_cms = extend [] (map (λ n. (cm_key n, cm_value n)) (cm_refs sts))
