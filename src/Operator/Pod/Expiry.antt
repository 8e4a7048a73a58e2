-- ===== src/Operator/Pod/Expiry.antt =====
-- The instant at which a Pod expires.
use commons_operator.Prelude.{
  ◌≡◌, refl, ap, ◌∙◌, ◌⊎◌, inl, inr, false, Option, none, some, List, [], ◌∷◌, arith, All,
  Bool-cases, Option-cases, if◌then◌else◌,
}
use commons_operator.Operator.{Outcome, ok, err}
use commons_operator.Operator.Pod.{
  Chrono, IsChrono, PodError, PodMeta, least, min_by_key, transpose, pod_expires_at, parsed,
}

module _ {D S P : Type 0} (c : Chrono D S P) where
  -- The specification: the first error of the list, and otherwise the instants of it.
  abbrev pub first_error : List (Outcome D (PodError P)) → Option (PodError P)
  first_error [] = none
  first_error (err e ∷ rs) = some e
  first_error (ok d ∷ rs) = first_error rs

  abbrev pub instants : List (Outcome D (PodError P)) → List D
  instants [] = []
  instants (err e ∷ rs) = instants rs
  instants (ok d ∷ rs) = d ∷ instants rs

  abbrev pub Among : D → List D → Type 0
  Among d [] = ⊥
  Among d (x ∷ xs) = (d ≡ x) ⊎ Among d xs

  -- None of the instants is sooner.
  abbrev pub IsSoonest : D → List D → Type 0
  IsSoonest d ds = Among d ds × All (λ x. c.lt x d ≡ false) ds

  least-err : (e : PodError P) (rs : List (Outcome D (PodError P))) → least c (err e) rs ≡ err e
  unfolding least
  least-err e [] = refl
  least-err e (ok d ∷ rs) = least-err e rs
  least-err e (err f ∷ rs) = least-err e rs

  least-error :
      (d : D) (rs : List (Outcome D (PodError P))) (e : PodError P)
      → first_error rs ≡ some e
      → least c (ok d) rs ≡ err e
  unfolding least
  least-error d [] e h = cc h
  least-error d (err f ∷ rs) e h = least-err f rs ∙ ground arith
  least-error d (ok x ∷ rs) e h = elim (Bool-cases (c.lt x d)) [
    | inl sooner ↦ ap (λ b. least c (if b then ok x else ok d) rs) sooner ∙ least-error x rs e h
    | inr later ↦ ap (λ b. least c (if b then ok x else ok d) rs) later ∙ least-error d rs e h
  ]

  module _ (laws : IsChrono D S P c) where
    least-IsSoonest :
        (d : D) (rs : List (Outcome D (PodError P)))
        → first_error rs ≡ none
        → (s : D) × (least c (ok d) rs ≡ ok s) × IsSoonest s (d ∷ instants rs)
    unfolding least
    least-IsSoonest d [] h = (d, refl, (inl refl, (laws.lt_irrefl d, tt)))
    least-IsSoonest d (err e ∷ rs) h = cc h
    least-IsSoonest d (ok x ∷ rs) h = elim (Bool-cases (c.lt x d)) [
      | inl sooner ↦
          let (s, e, (found, (above, all))) = least-IsSoonest x rs h in
          (
            s,
            ap (λ b. least c (if b then ok x else ok d) rs) sooner ∙ e,
            (inr found, (laws.not-lt_trans d x s (laws.lt_asym x d sooner) above, (above, all))),
          )
      | inr later ↦
          let (s, e, (found, (above, all))) = least-IsSoonest d rs h in
          (
            s,
            ap (λ b. least c (if b then ok x else ok d) rs) later ∙ e,
            (skip s found, (above, (laws.not-lt_trans x d s later above, all))),
          )
    ]
      where
        skip : (s : D) → Among s (d ∷ instants rs) → Among s (d ∷ x ∷ instants rs)
        skip s (inl e) = inl e
        skip s (inr m) = inr (inr m)

    -- Where the instants are ordered: a Pod has a time of expiry according to its annotations that say
    -- one. Of those that cannot be read the first is the error, whatever the others say. If all can be
    -- read the time is one of them and none is sooner, and without one there is none.
    pub pod_expires_at-cases :
        (pod : PodMeta)
        → ((e : PodError P) × (first_error (parsed c pod) ≡ some e)
            × (pod_expires_at c pod ≡ err e))
          ⊎ ((parsed c pod ≡ []) × (pod_expires_at c pod ≡ ok none))
          ⊎ ((d : D) × (first_error (parsed c pod) ≡ none)
              × (pod_expires_at c pod ≡ ok (some d))
              × IsSoonest d (instants (parsed c pod)))
    unfolding pod_expires_at
    pod_expires_at-cases pod = by_list (parsed c pod)
      where
        by_list :
            (rs : List (Outcome D (PodError P)))
            → ((e : PodError P) × (first_error rs ≡ some e)
                × (transpose c (min_by_key c rs) ≡ err e))
              ⊎ ((rs ≡ []) × (transpose c (min_by_key c rs) ≡ ok none))
              ⊎ ((d : D) × (first_error rs ≡ none)
                  × (transpose c (min_by_key c rs) ≡ ok (some d))
                  × IsSoonest d (instants rs))
        by_list [] = inr (inl (refl, refl))
        by_list (err e ∷ rs) = inl (e, refl, ap (λ r. transpose c (some r)) (least-err e rs))
        by_list (ok d ∷ rs) = elim (Option-cases (first_error rs)) [
          | inr (e, h) ↦ inl (e, h, ap (λ r. transpose c (some r)) (least-error d rs e h))
          | inl h ↦
              let (s, e, soonest) = least-IsSoonest d rs h in
              inr (inr (s, h, ap (λ r. transpose c (some r)) e, soonest))
        ]
