-- ===== src/Operator/Pod/Silent.antt =====
-- Which results of the Pod restart controller are not reported.
use commons_operator.Prelude.{◌≡◌, ◌↔◌, refl, true, false, arith, Text, text_eq_iff, text_eq_refl}
use commons_operator.Operator.{Outcome, ok, err}
use commons_operator.Operator.Pod.{
  Status, api, other_kube_error, pod_has_no_name, pod_has_no_namespace, unparsable_expiry_timestamp,
  evict_pod, Action, ControllerError, reconciler_failed, other_controller_error,
  evict_error_message, is_disrupting, report_result,
}

disrupting-parts :
    (s : Status) → is_disrupting (api s) ≡ true → (s.code ≡ 429) × (s.message ≡ evict_error_message)
disrupting-parts s h = (ground arith, (text_eq_iff s.message evict_error_message).0 (ground arith))

module _ {S P : Type 0} where
  -- An eviction that a disruption budget forbids, as the API server says it.
  abbrev pub IsForbidden : Outcome (Text × Action S) (ControllerError P) → Type 0
  IsForbidden result =
      (pod_ref : Text) × (s : Status) × (result
        ≡ err (reconciler_failed (evict_pod (api s)) pod_ref))
      × (s.code ≡ 429)
      × (s.message ≡ evict_error_message)

  silent :
      (result : Outcome (Text × Action S) (ControllerError P))
      → report_result result ≡ false
      → IsForbidden result
  unfolding report_result
  silent (ok done) h = cc h
  silent (err other_controller_error) h = cc h
  silent (err (reconciler_failed pod_has_no_name pod_ref)) h = cc h
  silent (err (reconciler_failed pod_has_no_namespace pod_ref)) h = cc h
  silent (err (reconciler_failed (unparsable_expiry_timestamp e k v) pod_ref)) h = cc h
  silent (err (reconciler_failed (evict_pod other_kube_error) pod_ref)) h = cc h
  silent (err (reconciler_failed (evict_pod (api s)) pod_ref)) h =
      let (code, message) = disrupting-parts s (ground arith) in (pod_ref, s, refl, code, message)

  forbidden :
      (result : Outcome (Text × Action S) (ControllerError P))
      → IsForbidden result
      → report_result result ≡ false
  unfolding report_result
  forbidden result (pod_ref, s, e, code, message) =
      rw (e, code, message, text_eq_refl evict_error_message) refl

  -- A result is kept out of the reports exactly if it is an eviction that the API server refused with
  -- status 429 and the message on disruption budgets.
  pub report_result_iff :
      (result : Outcome (Text × Action S) (ControllerError P))
      → (report_result result ≡ false) ↔ IsForbidden result
  report_result_iff result = (silent result, forbidden result)
