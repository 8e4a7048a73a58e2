-- ===== src/Operator/Pod/Evicts.antt =====
-- Which Pods are evicted, and which are looked at again.
use commons_operator.Prelude.{
  ◌≡◌, ◌≢◌, refl, sym, ap, ◌∙◌, inl, inr, Bool, true, false, not, ◌&&◌, ◌||◌, Option, none, some,
  List, [], ◌∷◌, arith, All, any, Bool-cases, if◌then◌else◌, Text,
}
use commons_operator.Operator.{Outcome, ok, err, is_some}
use commons_operator.Operator.Pod.{
  Chrono, IsChrono, PodError, PodMeta, KubeError, requeue, pod_expires_at, parsed, reconcile,
  by_expiry, by_time_left, evict_expired,
}
use commons_operator.Operator.Pod.Expiry.{
  first_error, instants, Among, IsSoonest, pod_expires_at-cases,
}

abbrev pub addressed : Option Text → Option Text → List (Text × Text)
addressed none name = []
addressed (some namespace) none = []
addressed (some namespace) (some name) = (namespace, name) ∷ []

module _ {D S P : Type 0} (c : Chrono D S P) where
  -- The specification: all the annotations can be read, and one of them is over.
  abbrev pub is_overdue : D → PodMeta → Bool
  is_overdue now pod =
      not (is_some (first_error c (parsed c pod)))
      && any (λ d. c.lt d now) (instants c (parsed c pod))

  module _ (laws : IsChrono D S P c) where
    none_over :
        (now d : D) (ds : List D)
        → All (λ x. c.lt x d ≡ false) ds
        → c.lt d now ≡ false
        → any (λ x. c.lt x now) ds ≡ false
    none_over now d [] h e = refl
    none_over now d (x ∷ ds) h e = rw (laws.not-lt_trans x d now h.0 e) (none_over now d ds h.1 e)

    one_over :
        (now d : D) (ds : List D)
        → Among c d ds
        → c.lt d now ≡ true
        → any (λ x. c.lt x now) ds ≡ true
    one_over now d [] h e = absurd h
    one_over now d (x ∷ ds) (inl same) e =
        ap (λ b. b || any (λ x. c.lt x now) ds) (ap (λ x. c.lt x now) (sym same) ∙ e)
    one_over now d (x ∷ ds) (inr behind) e = rw (one_over now d ds behind e) (ground arith)

    any-soonest :
        (now d : D) (ds : List D) → IsSoonest c d ds → any (λ x. c.lt x now) ds ≡ c.lt d now
    any-soonest now d ds h = elim (Bool-cases (c.lt d now)) [
      | inl e ↦ one_over now d ds h.0 e ∙ sym e
      | inr e ↦ none_over now d ds h.1 e ∙ sym e
    ]

    module _ (evict : Text → Text → Outcome (Unit {0}) KubeError) where
      evict_expired-evictions :
          (namespace name : Option Text)
          → (evict_expired c evict namespace name).1 ≡ addressed namespace name
      evict_expired-evictions none name = refl
      evict_expired-evictions (some namespace) none = refl
      evict_expired-evictions (some namespace) (some name) = refl

      by_time_left-evictions :
          (pod : PodMeta) (left : Option S) (b : Bool)
          → is_some left ≡ not b
          → (by_time_left c evict pod left).1 ≡ (if b then addressed pod.namespace pod.name else [])
      by_time_left-evictions pod none true h = evict_expired-evictions pod.namespace pod.name
      by_time_left-evictions pod none false h = cc h
      by_time_left-evictions pod (some left) true h = cc h
      by_time_left-evictions pod (some left) false h = refl

      abbrev evicts_if : PodMeta → Bool → List (Text × Text)
      evicts_if pod b = if b then addressed pod.namespace pod.name else []

      matching :
          (now : D) (pod : PodMeta) (x : Outcome (Option D) (PodError P)) (b : Bool)
          → pod_expires_at c pod ≡ x
          → is_overdue now pod ≡ b
          → (by_expiry c evict now pod x).1 ≡ evicts_if pod b
          → (by_expiry c evict now pod (pod_expires_at c pod)).1
            ≡ evicts_if pod (is_overdue now pod)
      matching now pod x b expires overdue h =
          ap (λ x. (by_expiry c evict now pod x).1) expires ∙ (h ∙ ap (evicts_if pod) (sym overdue))

      by_expiry-evictions :
          (now : D) (pod : PodMeta)
          → (by_expiry c evict now pod (pod_expires_at c pod)).1
            ≡ (if is_overdue now pod then addressed pod.namespace pod.name else [])
      by_expiry-evictions now pod = elim (pod_expires_at-cases c laws pod) [
        | inl (e, broken, expires) ↦
            matching now pod (err e) false expires
              (ap (λ o. not (is_some o) && any (λ d. c.lt d now) (instants c (parsed c pod)))
                broken)
              refl
        | inr (inl (empty, expires)) ↦
            matching now pod (ok none) false expires
              (ap (λ rs. not (is_some (first_error c rs)) && any (λ d. c.lt d now) (instants c rs))
                empty)
              refl
        | inr (inr (d, fine, expires, soonest)) ↦
            matching now pod (ok (some d)) (c.lt d now) expires
              (ap (λ o. not (is_some o) && any (λ d. c.lt d now) (instants c (parsed c pod))) fine
                ∙ any-soonest now d (instants c (parsed c pod)) soonest)
              (by_time_left-evictions pod (c.to_std d now) (c.lt d now) (laws.is_some-to_std d now))
      ]

      -- Where the instants are ordered: a reconciliation evicts a Pod exactly if the Pod is not being
      -- deleted, each of its expiry annotations can be read, one of them is over, and the Pod has a
      -- namespace and a name. It evicts no other Pod, and none twice.
      pub reconcile-evictions :
          (now : D) (pod : PodMeta)
          → (reconcile c evict now pod).1 ≡ (
              if not (is_some pod.deletion_timestamp) && is_overdue now pod
              then addressed pod.namespace pod.name
              else [])
      unfolding reconcile
      reconcile-evictions now pod = elim (Bool-cases (is_some pod.deletion_timestamp)) [
        | inl e ↦ rw e refl
        | inr e ↦ rw e (by_expiry-evictions now pod)
      ]

      -- Where the instants are ordered: a Pod that is not being deleted, has an expiry annotation, can
      -- have all of them read and none of them over, is looked at again when the soonest is over.
      pub reconcile-requeue :
          (now : D) (pod : PodMeta)
          → pod.deletion_timestamp ≡ none
          → parsed c pod ≢ []
          → first_error c (parsed c pod) ≡ none
          → is_overdue now pod ≡ false
          → (d : D) × IsSoonest c d (instants c (parsed c pod))
            × (left : S) × (c.to_std d now ≡ some left)
            × (reconcile c evict now pod ≡ (ok (requeue left), []))
      unfolding reconcile
      reconcile-requeue now pod alive some_expiry readable fresh =
          elim (pod_expires_at-cases c laws pod) [
            | inl (e, broken, expires) ↦ cc (broken, readable)
            | inr (inl (empty, expires)) ↦ absurd (some_expiry empty)
            | inr (inr (d, fine, expires, soonest)) ↦
                let in_time : c.lt d now ≡ false =
                  sym (any-soonest now d (instants c (parsed c pod)) soonest)
                  ∙ (ap (λ o. not (is_some o) && any (λ d. c.lt d now) (instants c (parsed c pod)))
                        (sym fine)
                      ∙ fresh) in
                let (left, e) =
                  time_left (c.to_std d now) (laws.is_some-to_std d now ∙ ap not in_time) in
                (d, soonest, left, e, rw (alive, expires, e) refl)
          ]
        where
          time_left : (x : Option S) → is_some x ≡ true → (left : S) × (x ≡ some left)
          time_left none h = cc h
          time_left (some left) h = (left, refl)
