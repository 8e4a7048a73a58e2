-- ===== src/Operator/Objects.antt =====
-- The Kubernetes objects that rust/operator-binary/src/restart_controller/statefulset.rs reads, and the
-- iterators over them.
use commons_operator.Prelude.{Option, none, some, List, [], ◌∷◌, ◌++◌, Text}

-- The objects of `k8s_openapi`, by the fields that are read, and the projected volumes, which are not. A `ConfigMap` or a `Secret` is referred
-- to by its name.
pub record VolumeProjection : Type 0 where
  pub config_map : Option Text
  pub secret : Option Text

pub record Volume : Type 0 where
  pub config_map : Option Text
  -- `SecretVolumeSource.secret_name` is optional.
  pub secret : Option (Option Text)
  -- `ProjectedVolumeSource.sources` is optional too.
  pub projected : Option (Option (List VolumeProjection))

pub record EnvVarSource : Type 0 where
  pub config_map_key_ref : Option Text
  pub secret_key_ref : Option Text

pub record EnvVar : Type 0 where
  pub value_from : Option EnvVarSource

pub record EnvFromSource : Type 0 where
  pub config_map_ref : Option Text
  pub secret_ref : Option Text

pub record Container : Type 0 where
  pub env : Option (List EnvVar)
  pub env_from : Option (List EnvFromSource)

pub record PodSpec : Type 0 where
  pub volumes : Option (List Volume)
  pub containers : List Container
  pub init_containers : Option (List Container)

pub record ObjectMeta : Type 0 where
  pub name : Option Text
  pub namespace : Option Text
  pub uid : Option Text
  pub resource_version : Option Text
  pub annotations : Option (List (Text × Text))

pub record PodTemplateSpec : Type 0 where
  pub metadata : Option ObjectMeta
  pub spec : Option PodSpec

pub record StatefulSet : Type 0 where
  pub metadata : ObjectMeta
  -- The field `template` of the `StatefulSetSpec`.
  pub spec : Option PodTemplateSpec

-- `iter().flatten()` of an optional list, and `flat_map` of a function into `Option`.
module _ {ℓ} {A : Type ℓ} where
  abbrev pub flattened : Option (List A) → List A
  flattened none = []
  flattened (some xs) = xs

  abbrev pub cons_some : Option A → List A → List A
  cons_some none xs = xs
  cons_some (some x) xs = x ∷ xs

  abbrev pub to_list : Option A → List A
  to_list o = cons_some o []

module _ {ℓ κ} {A : Type ℓ} {B : Type κ} where
  abbrev pub flat_map_some : (A → Option B) → List A → List B
  flat_map_some f [] = []
  flat_map_some f (x ∷ xs) = cons_some (f x) (flat_map_some f xs)

  abbrev pub flat_map : (A → List B) → List A → List B
  flat_map f [] = []
  flat_map f (x ∷ xs) = f x ++ flat_map f xs

  abbrev pub and_then : Option A → (A → Option B) → Option B
  and_then none f = none
  and_then (some x) f = f x
