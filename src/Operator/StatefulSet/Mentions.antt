-- ===== src/Operator/StatefulSet/Mentions.antt =====
-- What the template of a StatefulSet mentions, read off the template and not off the code, and that
-- `cm_refs` and `secret_refs` find it.
use commons_operator.Prelude.{
  ◌≡◌, refl, ap, ◌∙◌, Bool, true, false, ◌||◌, Option, none, some, List, [], ◌∷◌, ◌++◌, Text,
  text_eq, any, any-append, any-or, any_ext,
}
use mathlib.Core.Path.{ap₂}
use commons_operator.Operator.Objects.{
  Volume, EnvVarSource, EnvVar, EnvFromSource, Container, PodSpec, PodTemplateSpec, StatefulSet,
  flattened, cons_some, to_list, flat_map_some, flat_map, and_then,
}
use commons_operator.Operator.StatefulSet.{find_pod_refs, cm_refs, secret_refs}

-- A name is among the references.
abbrev pub refers : List Text → Text → Bool
refers names name = any (λ n. text_eq n name) names

abbrev pub is_name : Text → Option Text → Bool
is_name name none = false
is_name name (some n) = text_eq n name

abbrev pub any_of {ℓ} : {A : Type ℓ} → (A → Bool) → Option (List A) → Bool
any_of p none = false
any_of p (some xs) = any p xs

abbrev pub source_cm : Text → Option EnvVarSource → Bool
source_cm name none = false
source_cm name (some source) = is_name name source.config_map_key_ref

abbrev pub source_secret : Text → Option EnvVarSource → Bool
source_secret name none = false
source_secret name (some source) = is_name name source.secret_key_ref

abbrev pub volume_secret : Text → Option (Option Text) → Bool
volume_secret name none = false
volume_secret name (some secret_name) = is_name name secret_name

-- A container has the name in its environment.
abbrev pub container_cm : Text → Container → Bool
container_cm name container =
    any_of (λ (e : EnvVar). source_cm name e.value_from) container.env
    || any_of (λ (e : EnvFromSource). is_name name e.config_map_ref) container.env_from

abbrev pub container_secret : Text → Container → Bool
container_secret name container =
    any_of (λ (e : EnvVar). source_secret name e.value_from) container.env
    || any_of (λ (e : EnvFromSource). is_name name e.secret_ref) container.env_from

abbrev pub pod_mentions : (Volume → Bool) → (Container → Bool) → PodSpec → Bool
pod_mentions volume container pod_spec =
    any_of volume pod_spec.volumes
    || (any container pod_spec.containers || any_of container pod_spec.init_containers)

abbrev pub template_mentions : (PodSpec → Bool) → Option PodTemplateSpec → Bool
template_mentions p none = false
template_mentions p (some template) = elim template.spec [
  | none ↦ false
  | some pod_spec ↦ p pod_spec
]

-- A volume by its own source, or the environment of a container, an init container too, mentions the
-- name. The sources of a projected volume do not count.
abbrev pub mentions_cm : StatefulSet → Text → Bool
mentions_cm sts name =
    template_mentions (pod_mentions (λ volume. is_name name volume.config_map) (container_cm name))
      sts.spec

abbrev pub mentions_secret : StatefulSet → Text → Bool
mentions_secret sts name =
    template_mentions
      (pod_mentions (λ volume. volume_secret name volume.secret) (container_secret name)) sts.spec

refers-cons_some :
    (name : Text) (o : Option Text) (ns : List Text)
    → refers (cons_some o ns) name ≡ (is_name name o || refers ns name)
refers-cons_some name none ns = refl
refers-cons_some name (some n) ns = refl

module _ {ℓ} {A : Type ℓ} where
  any_of_ext :
      (p q : A → Bool) → ((x : A) → p x ≡ q x) → (o : Option (List A)) → any_of p o ≡ any_of q o
  any_of_ext p q h none = refl
  any_of_ext p q h (some xs) = any_ext p q h xs

  any-flattened : (p : A → Bool) (o : Option (List A)) → any p (flattened o) ≡ any_of p o
  any-flattened p none = refl
  any-flattened p (some xs) = refl

  refers-flat_map_some :
      (f : A → Option Text) (name : Text) (xs : List A)
      → refers (flat_map_some f xs) name ≡ any (λ x. is_name name (f x)) xs
  refers-flat_map_some f name [] = refl
  refers-flat_map_some f name (x ∷ xs) =
      refers-cons_some name (f x) (flat_map_some f xs)
      ∙ ap (λ b. is_name name (f x) || b) (refers-flat_map_some f name xs)

module _ {ℓ κ} {A : Type ℓ} {B : Type κ} where
  any-flat_map :
      (p : B → Bool) (g : A → List B) (xs : List A)
      → any p (flat_map g xs) ≡ any (λ x. any p (g x)) xs
  any-flat_map p g [] = refl
  any-flat_map p g (x ∷ xs) =
      any-append p (g x) (flat_map g xs) ∙ ap (λ b. any p (g x) || b) (any-flat_map p g xs)

refers-containers {ℓ} :
    {A : Type ℓ} (list : Container → Option (List A)) (f : A → Option Text) (name : Text)
    (cs : List Container)
    → refers (flat_map_some f (flat_map (λ c. flattened (list c)) cs)) name
      ≡ any (λ c. any_of (λ x. is_name name (f x)) (list c)) cs
refers-containers list f name cs =
    refers-flat_map_some f name (flat_map (λ c. flattened (list c)) cs)
    ∙ (any-flat_map (λ x. is_name name (f x)) (λ c. flattened (list c)) cs
        ∙ any_ext _ _ (λ c. any-flattened (λ x. is_name name (f x)) (list c)) cs)

pod_mentions_ext :
    (v v' : Volume → Bool) (c c' : Container → Bool)
    → ((x : Volume) → v x ≡ v' x)
    → ((x : Container) → c x ≡ c' x)
    → (pod_spec : PodSpec) → pod_mentions v c pod_spec ≡ pod_mentions v' c' pod_spec
pod_mentions_ext v v' c c' hv hc pod_spec =
    ap₂ (λ a b. a || b) (any_of_ext v v' hv pod_spec.volumes)
      (ap₂ (λ a b. a || b) (any_ext c c' hc pod_spec.containers)
        (any_of_ext c c' hc pod_spec.init_containers))

module _ (v : Volume → Option Text) (e : EnvVar → Option Text) (f : EnvFromSource → Option Text)
    (name : Text) where
  abbrev pub container_mentions : Container → Bool
  container_mentions container =
      any_of (λ x. is_name name (e x)) container.env
      || any_of (λ x. is_name name (f x)) container.env_from

  refers-find_pod_refs :
      (pod_spec : PodSpec)
      → refers (find_pod_refs pod_spec v e f) name
        ≡ pod_mentions (λ x. is_name name (v x)) container_mentions pod_spec
  unfolding find_pod_refs
  refers-find_pod_refs pod_spec =
      let cs = pod_spec.containers ++ flattened pod_spec.init_containers in
      let of_env = flat_map_some e (flat_map (λ (c : Container). flattened c.env) cs) in
      let of_env_from = flat_map_some f (flat_map (λ (c : Container). flattened c.env_from) cs) in
      any-append (λ n. text_eq n name) (flat_map_some v (flattened pod_spec.volumes))
        (of_env ++ of_env_from)
      ∙ ap₂ (λ a b. a || b)
          (refers-flat_map_some v name (flattened pod_spec.volumes)
            ∙ any-flattened (λ x. is_name name (v x)) pod_spec.volumes)
          (any-append (λ n. text_eq n name) of_env of_env_from
            ∙ (ap₂ (λ a b. a || b) (refers-containers (λ c. c.env) e name cs)
                  (refers-containers (λ c. c.env_from) f name cs)
                ∙ (any-or _ _ cs
                    ∙ (any-append container_mentions pod_spec.containers
                          (flattened pod_spec.init_containers)
                        ∙ ap (λ b. any container_mentions pod_spec.containers || b)
                            (any-flattened container_mentions pod_spec.init_containers)))))

or_false : (b : Bool) → (b || false) ≡ b
or_false true = refl
or_false false = refl

refers_of_spec :
    (refs : PodSpec → List Text) (p : PodSpec → Bool) (name : Text)
    → ((pod_spec : PodSpec) → refers (refs pod_spec) name ≡ p pod_spec)
    → (spec : Option PodTemplateSpec)
    → refers (flat_map refs (to_list (and_then spec (λ template. template.spec)))) name
      ≡ template_mentions p spec
refers_of_spec refs p name h none = refl
refers_of_spec refs p name h (some template) = by_pod_spec template.spec
  where
    by_pod_spec :
        (o : Option PodSpec)
        → refers (flat_map refs (to_list o)) name
          ≡ (elim o [ none ↦ false | some pod_spec ↦ p pod_spec ])
    by_pod_spec none = refl
    by_pod_spec (some pod_spec) =
        any-append (λ n. text_eq n name) (refs pod_spec) []
        ∙ (ap (λ b. b || false) (h pod_spec) ∙ or_false (p pod_spec))

module _ (name : Text) where
  source_cm_lem :
      (o : Option EnvVarSource)
      → is_name name (and_then o (λ source. source.config_map_key_ref)) ≡ source_cm name o
  source_cm_lem none = refl
  source_cm_lem (some source) = refl

  source_secret_lem :
      (o : Option EnvVarSource)
      → is_name name (and_then o (λ source. source.secret_key_ref)) ≡ source_secret name o
  source_secret_lem none = refl
  source_secret_lem (some source) = refl

  volume_secret_lem :
      (o : Option (Option Text)) → is_name name (and_then o (λ n. n)) ≡ volume_secret name o
  volume_secret_lem none = refl
  volume_secret_lem (some n) = refl

  pub refers-cm_refs : (sts : StatefulSet) → refers (cm_refs sts) name ≡ mentions_cm sts name
  unfolding cm_refs
  refers-cm_refs sts =
      refers_of_spec _ _ name
        (λ pod_spec.
          refers-find_pod_refs _ _ _ name pod_spec
          ∙ pod_mentions_ext _ _ _ (container_cm name) (λ x. refl)
              (λ c.
                ap
                  (λ b.
                    b || any_of (λ (e : EnvFromSource). is_name name e.config_map_ref) c.env_from)
                  (any_of_ext _ _ (λ e. source_cm_lem e.value_from) c.env))
              pod_spec)
        sts.spec

  pub refers-secret_refs :
      (sts : StatefulSet) → refers (secret_refs sts) name ≡ mentions_secret sts name
  unfolding secret_refs
  refers-secret_refs sts =
      refers_of_spec _ _ name
        (λ pod_spec.
          refers-find_pod_refs _ _ _ name pod_spec
          ∙ pod_mentions_ext _ _ _ (container_secret name) (λ x. volume_secret_lem x.secret)
              (λ c.
                ap (λ b. b || any_of (λ (e : EnvFromSource). is_name name e.secret_ref) c.env_from)
                  (any_of_ext _ _ (λ e. source_secret_lem e.value_from) c.env))
              pod_spec)
        sts.spec
