-- ===== src/Tests/Pods.antt =====
-- A Pod with three annotations, where whole numbers stand for the instants.
use commons_operator.Prelude.{
  ℕ, ◌-◌, ◌≡◌, ◌↔◌, ◌⊎◌, refl, false, not, none, some, [], ◌∷◌, arith, ltb, Text, codes, length,
  if◌then◌else◌,
}
use commons_operator.Operator.{Outcome, ok, err, is_some}
use commons_operator.Operator.Pod.{
  Chrono, IsChrono, KubeError, api, PodError, PodMeta, Action, ControllerError, requeue, evict_pod,
  parsed, reconcile, report_result, reconciler_failed, evict_error_message, pod_expires_at,
}
use commons_operator.Operator.Pod.Expiry.{first_error, instants, IsSoonest, pod_expires_at-cases}
use commons_operator.Operator.Pod.Evicts.{reconcile-evictions, reconcile-requeue}
use commons_operator.Operator.Pod.Silent.{IsForbidden, report_result_iff}

-- A text stands for the instant of its length, and the empty one cannot be read.
abbrev by_length : Text → Outcome ℕ (Unit {0})
by_length [] = err tt
by_length (x ∷ xs) = ok (length xs)

abbrev clock : Chrono ℕ ℕ (Unit {0})
clock = record {
  parse_from_rfc3339 = by_length;
  lt = ltb;
  to_std = λ a b. if ltb a b then none else some (a - b);
}

to_std_runs : (a b : ℕ) → is_some (clock.to_std a b) ≡ not (ltb a b)
to_std_runs a b = ground arith

clock-IsChrono : IsChrono ℕ ℕ (Unit {0}) clock
clock-IsChrono = record {
  lt_irrefl = λ a. ground arith;
  not-lt_trans = λ x y z h k. ground arith;
  lt_asym = λ x y h. ground arith;
  is_some-to_std = to_std_runs;
}

abbrev pod : PodMeta
pod = record {
  name = some (codes "trino-0");
  namespace = some (codes "default");
  deletion_timestamp = none;
  annotations = some (
      (codes "app", [])
      ∷ (codes "restarter.stackable.tech/expires-at.a", codes "12345")
      ∷ (codes "restarter.stackable.tech/expires-at.b", codes "123")
      ∷ []);
}

abbrev refuse : Text → Text → Outcome (Unit {0}) KubeError
refuse namespace name = err (api (record { code = 429; message = evict_error_message }))

pod_expires_at-cases_example :
    ((e : PodError (Unit {0})) × (first_error clock (parsed clock pod) ≡ some e)
      × (pod_expires_at clock pod ≡ err e))
    ⊎ ((parsed clock pod ≡ []) × (pod_expires_at clock pod ≡ ok none))
    ⊎ ((d : ℕ) × (first_error clock (parsed clock pod) ≡ none)
        × (pod_expires_at clock pod ≡ ok (some d))
        × IsSoonest clock d (instants clock (parsed clock pod)))
pod_expires_at-cases_example = pod_expires_at-cases clock clock-IsChrono pod

reconcile-evictions_example :
    (reconcile clock refuse 3 pod).1 ≡ (codes "default", codes "trino-0") ∷ []
reconcile-evictions_example = reconcile-evictions clock clock-IsChrono refuse 3 pod

reconcile-requeue_example :
    (d : ℕ) × IsSoonest clock d (instants clock (parsed clock pod))
    × (left : ℕ) × (clock.to_std d 1 ≡ some left)
    × (reconcile clock refuse 1 pod ≡ (ok (requeue left), []))
reconcile-requeue_example =
    reconcile-requeue clock clock-IsChrono refuse 1 pod refl (λ e. cc e) refl refl

abbrev refused : Outcome (Text × Action ℕ) (ControllerError (Unit {0}))
refused = err (
    reconciler_failed (evict_pod (api (record { code = 429; message = evict_error_message })))
      (codes "trino-0"))

report_result_iff_example : (report_result refused ≡ false) ↔ IsForbidden refused
report_result_iff_example = report_result_iff refused
