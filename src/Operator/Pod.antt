-- ===== src/Operator/Pod.antt =====
-- rust/operator-binary/src/restart_controller/pod.rs: Pods are evicted when an annotation says that
-- they have expired.
pub mod Expiry
pub mod Evicts
pub mod Silent
use commons_operator.Prelude.{
  ℕ, ◌==◌, ◌≡◌, Bool, true, false, not, ◌&&◌, Option, none, some, List, [], ◌∷◌, Text, codes,
  text_eq, strip_prefix, map, keep, if◌then◌else◌,
}
use commons_operator.Operator.{Outcome, ok, err, is_some}

-- `chrono`: instants with their order, and `(a - b).to_std()`, which has no value if it is negative.
pub record Chrono (D S P : Type 0) : Type 0 where
  pub parse_from_rfc3339 : Text → Outcome D P
  pub lt : D → D → Bool
  pub to_std : D → D → Option S

pub record IsChrono (D S P : Type 0) (c : Chrono D S P) : Type 0 where
  pub lt_irrefl : (a : D) → c.lt a a ≡ false
  pub not-lt_trans : (x y z : D) → c.lt x y ≡ false → c.lt y z ≡ false → c.lt x z ≡ false
  pub lt_asym : (x y : D) → c.lt x y ≡ true → c.lt y x ≡ false
  pub is_some-to_std : (x y : D) → is_some (c.to_std x y) ≡ not (c.lt x y)

-- `kube::Error` and its `Status`, by what is read of them.
pub record Status : Type 0 where
  pub code : ℕ
  pub message : Text

pub data KubeError : Type 0 where
  api : Status → KubeError
  other_kube_error : KubeError

pub data PodError (P : Type 0) : Type 0 where
  pod_has_no_name pod_has_no_namespace : PodError P
  unparsable_expiry_timestamp : P → Text → Text → PodError P
  evict_pod : KubeError → PodError P

-- `Action::await_change()` and `Action::requeue(duration)`
pub data Action (S : Type 0) : Type 0 where
  await_change : Action S
  requeue : S → Action S

pub record PodMeta : Type 0 where
  pub name : Option Text
  pub namespace : Option Text
  pub deletion_timestamp : Option Text
  -- A `BTreeMap`: the entries stand in the order of the keys.
  pub annotations : Option (List (Text × Text))

abbrev pub flatten : Option (List (Text × Text)) → List (Text × Text)
flatten none = []
flatten (some entries) = entries

abbrev pub is_expiry : Text × Text → Bool
is_expiry entry = is_some (strip_prefix (codes "restarter.stackable.tech/expires-at.") entry.0)

module _ {D S P : Type 0} (c : Chrono D S P) where
  abbrev pub in_context : Text × Text → Outcome D P → Outcome D (PodError P)
  in_context entry (ok d) = ok d
  in_context entry (err e) = err (unparsable_expiry_timestamp e entry.0 entry.1)

  abbrev pub parse_entry : Text × Text → Outcome D (PodError P)
  parse_entry entry = in_context entry (c.parse_from_rfc3339 entry.1)

  abbrev pub parsed : PodMeta → List (Outcome D (PodError P))
  parsed pod = map parse_entry (keep is_expiry (flatten pod.annotations))

  -- The order of the keys `(res.is_ok(), res.as_ref().ok().cloned())`.
  abbrev pub before : Outcome D (PodError P) → Outcome D (PodError P) → Bool
  before (err e) (err f) = false
  before (err e) (ok d) = true
  before (ok d) (err e) = false
  before (ok d) (ok f) = c.lt d f

  -- `min_by_key`: of equal ones the first.
  unfoldable pub least :
      Outcome D (PodError P) → List (Outcome D (PodError P)) → Outcome D (PodError P)
  least held [] = held
  least held (r ∷ rs) = least (if before r held then r else held) rs

  abbrev pub min_by_key : List (Outcome D (PodError P)) → Option (Outcome D (PodError P))
  unfolding least
  min_by_key [] = none
  min_by_key (r ∷ rs) = some (least r rs)

  abbrev pub transpose : Option (Outcome D (PodError P)) → Outcome (Option D) (PodError P)
  transpose none = ok none
  transpose (some (err e)) = err e
  transpose (some (ok d)) = ok (some d)

  unfoldable pub pod_expires_at : PodMeta → Outcome (Option D) (PodError P)
  unfolding least
  pod_expires_at pod = transpose (min_by_key (parsed pod))

  -- The result of a reconciliation, with the Pods whose eviction was asked for.
  abbrev pub Reconciled : Type 0
  Reconciled = Outcome (Action S) (PodError P) × List (Text × Text)

  abbrev pub after_eviction : Outcome (Unit {0}) KubeError → Outcome (Action S) (PodError P)
  after_eviction (ok u) = ok await_change
  after_eviction (err e) = err (evict_pod e)

  -- `evict` is what the API server answers.
  module _ (evict : Text → Text → Outcome (Unit {0}) KubeError) where
    abbrev pub evict_expired : Option Text → Option Text → Reconciled
    evict_expired none name = (err pod_has_no_namespace, [])
    evict_expired (some namespace) none = (err pod_has_no_name, [])
    evict_expired (some namespace) (some name) =
        (after_eviction (evict namespace name), (namespace, name) ∷ [])

    abbrev pub by_time_left : PodMeta → Option S → Reconciled
    by_time_left pod none = evict_expired pod.namespace pod.name
    by_time_left pod (some left) = (ok (requeue left), [])

    abbrev pub by_expiry : D → PodMeta → Outcome (Option D) (PodError P) → Reconciled
    by_expiry now pod (err e) = (err e, [])
    by_expiry now pod (ok none) = (ok await_change, [])
    by_expiry now pod (ok (some expires_at)) = by_time_left pod (c.to_std expires_at now)

    unfoldable pub reconcile : D → PodMeta → Reconciled
    unfolding pod_expires_at
    reconcile now pod =
        if is_some pod.deletion_timestamp
        then (ok await_change, [])
        else by_expiry now pod (pod_expires_at pod)

-- The result that `kube::runtime`'s controller hands on.
pub data ControllerError (P : Type 0) : Type 0 where
  reconciler_failed : PodError P → Text → ControllerError P
  other_controller_error : ControllerError P

abbrev pub evict_error_message : Text
evict_error_message = codes "Cannot evict pod as it would violate the pod's disruption budget."

abbrev pub is_disrupting : KubeError → Bool
is_disrupting (api s) = s.code == 429 && text_eq s.message evict_error_message
is_disrupting other_kube_error = false

module _ {P : Type 0} where
  unfoldable pub category : PodError P → Text
  category pod_has_no_name = codes "PodHasNoName"
  category pod_has_no_namespace = codes "PodHasNoNamespace"
  category (unparsable_expiry_timestamp e k v) = codes "UnparsableExpiryTimestamp"
  category (evict_pod e) = codes "EvictPod"

module _ {S P : Type 0} where
  -- Whether the result goes to `report_controller_reconciled`.
  unfoldable pub report_result : Outcome (Text × Action S) (ControllerError P) → Bool
  report_result (ok done) = true
  report_result (err other_controller_error) = true
  report_result (err (reconciler_failed pod_has_no_name pod_ref)) = true
  report_result (err (reconciler_failed pod_has_no_namespace pod_ref)) = true
  report_result (err (reconciler_failed (unparsable_expiry_timestamp e k v) pod_ref)) = true
  report_result (err (reconciler_failed (evict_pod e) pod_ref)) = not (is_disrupting e)

  -- `from_secs` is `Duration::from_secs`.
  unfoldable pub error_policy : (ℕ → S) → PodError P → Action S
  error_policy from_secs e = requeue (from_secs 5)
