-- ===== src/Operator/StatefulSet/Patches.antt =====
-- When an annotation of the template changes, so that the Pods restart.
use commons_operator.Prelude.{
  ◌≡◌, ◌↔◌, refl, sym, ap, ◌∙◌, Bool, true, false, Option, none, some, List, [], ◌∷◌, ◌++◌, arith,
  Text, codes, text_eq, has_char, any,
}
use commons_operator.Operator.Objects.{ObjectMeta}
use commons_operator.Operator.StatefulSet.{
  Store, changes_ignored, version_of, object_version, annotation_value,
}

split_at_slash :
    (a b c d : Text)
    → has_char 47 a ≡ false
    → has_char 47 c ≡ false
    → a ++ (47 ∷ b) ≡ c ++ (47 ∷ d)
    → (a ≡ c) × (b ≡ d)
split_at_slash [] b [] d ha hc e = (refl, cc e)
split_at_slash [] b (y ∷ c) d ha hc e = absurd (ground arith)
split_at_slash (x ∷ a) b [] d ha hc e = absurd (ground arith)
split_at_slash (x ∷ a) b (y ∷ c) d ha hc e =
    let rest = split_at_slash a b c d (ground arith) (ground arith) (cc e) in
    (cc (rest.0, e), rest.1)

has_slash : (a b : Text) → has_char 47 (a ++ (47 ∷ b)) ≡ true
has_slash [] b = refl
has_slash (x ∷ a) b = ground (arith, has_slash a b)

-- The identity and the version of an object that is there and not ignored.
abbrev pub identified : Option Text → Option Text → Option (Text × Text)
identified none resource_version = none
identified (some uid) none = none
identified (some uid) (some resource_version) = some (uid, resource_version)

abbrev pub tracked : Option ObjectMeta → Bool → Option (Text × Text)
tracked object true = none
tracked none false = none
tracked (some object) false = identified object.uid object.resource_version

-- The uid of an object has no slash, as it is a UUID.
abbrev pub HasPlainUid : Option (Text × Text) → Type 0
HasPlainUid none = Unit
HasPlainUid (some version) = has_char 47 version.0 ≡ false

abbrev written : Option (Text × Text) → Text
written none = changes_ignored
written (some version) = version.0 ++ (codes "/" ++ version.1)

version_of-written :
    (uid resource_version : Option Text)
    → version_of uid resource_version false ≡ written (identified uid resource_version)
version_of-written none resource_version = refl
version_of-written (some uid) none = refl
version_of-written (some uid) (some resource_version) = refl

version_of_ignored :
    (uid resource_version : Option Text) → version_of uid resource_version true ≡ changes_ignored
version_of_ignored none resource_version = refl
version_of_ignored (some uid) none = refl
version_of_ignored (some uid) (some resource_version) = refl

object_version-written :
    (object : Option ObjectMeta) (b : Bool) → object_version object b ≡ written (tracked object b)
object_version-written none true = refl
object_version-written none false = refl
object_version-written (some object) true = version_of_ignored object.uid object.resource_version
object_version-written (some object) false = version_of-written object.uid object.resource_version

unslashed : (v w : Text) → v ++ (47 ∷ w) ≡ changes_ignored → ⊥
unslashed v w e =
    let slashed = has_slash v w in
    let plain : has_char 47 changes_ignored ≡ false = refl in
    cc (slashed, plain, ap (has_char 47) e)

written_injective :
    (x y : Option (Text × Text)) → HasPlainUid x → HasPlainUid y → written x ≡ written y → x ≡ y
written_injective none none hx hy e = refl
written_injective none (some (v, w)) hx hy e = absurd (unslashed v w (sym e))
written_injective (some (v, w)) none hx hy e = absurd (unslashed v w e)
written_injective (some (v, w)) (some (v', w')) hx hy e =
    let parts = split_at_slash v w v' w' hx hy e in ap some (cc (parts.0, parts.1))

-- Whether the annotations say that a name is ignored.
abbrev pub is_ignored : List Text → Text → Bool
is_ignored names name = any (λ n. text_eq n name) names

-- Where uids have no slash: between two states of the store the annotation of a name stays the same
-- exactly if in both the object is missing, unnumbered or ignored, or it has in both the same uid and
-- the same resource version.
pub annotation_value_iff :
    (ns : Text) (before after : Store) (ignored_names : List Text) (name : Text)
    → HasPlainUid (tracked (before ns name) (is_ignored ignored_names name))
    → HasPlainUid (tracked (after ns name) (is_ignored ignored_names name))
    → (annotation_value ns before ignored_names name ≡ annotation_value ns after ignored_names name)
      ↔ (tracked (before ns name) (is_ignored ignored_names name)
          ≡ tracked (after ns name) (is_ignored ignored_names name))
unfolding annotation_value
annotation_value_iff ns before after ignored_names name hx hy =
    let b = is_ignored ignored_names name in
    (
      λ e. written_injective (tracked (before ns name) b) (tracked (after ns name) b) hx hy (
          sym (object_version-written (before ns name) b)
          ∙ (e ∙ object_version-written (after ns name) b)),
      λ e.
          object_version-written (before ns name) b
          ∙ (ap written e ∙ sym (object_version-written (after ns name) b)),
    )
