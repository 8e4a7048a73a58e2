-- ===== src/Runtime/Record.antt =====
-- What `add_runtime` records and what it keeps.
use commons_operator.Prelude.{
  ℕ, ◌+◌, ◌-◌, ◌≤◌, ◌≡◌, ap, ◌⊎◌, length-take, true, false, List, [], ◌∷◌, ◌++◌, arith, Text,
  length, take, drop, All, All-append, All-drop, length-append, length-drop, ltb, if◌then◌else◌,
  Bool-cases, inl, inr, take-append-drop,
}
use commons_operator.Float.{Float}
use commons_operator.Runtime.{RuntimeHistory, max_runtime_history, is_tracked, add_runtime}

-- The two branches of the slice are one: it drops what is too much.
recent {ℓ} :
    {A : Type ℓ} (n k : ℕ) (xs : List A)
    → (if ltb k n then drop (n - k) xs else xs) ≡ drop (n - k) xs
recent n k xs = elim (Bool-cases (ltb k n)) [
  | inl e ↦ rw e
  | inr e ↦ let all_fit : n - k ≡ 0 = ground arith in rw (e, all_fit)
]

module _ {F : Type 0} ⦃d : Float F⦄ where
  -- At most fifty run times, none of them a quick failure.
  pub record IsBounded (h : RuntimeHistory F) : Type 0 where
    pub few : length h.runtimes ≤ max_runtime_history
    pub slow : All (λ r. is_tracked r ≡ true) h.runtimes

  abbrev longer : F → RuntimeHistory F → List F
  longer duration h = h.runtimes ++ duration ∷ []

  pub add_runtime_tracked :
      (now : Text) (duration : F) (h : RuntimeHistory F)
      → is_tracked duration ≡ true
      → add_runtime now duration h ≡ record h {
        runtimes = drop (length (longer duration h) - max_runtime_history) (longer duration h);
        last_updated = now;
      }
  unfolding add_runtime
  add_runtime_tracked now duration h e = rw e (
      ap (λ (l : List F). record h { runtimes = l; last_updated = now })
        (recent (length (longer duration h)) max_runtime_history (longer duration h)))

  recent_slow :
      (duration : F) (h : RuntimeHistory F) (n : ℕ)
      → All (λ r. is_tracked r ≡ true) h.runtimes
      → is_tracked duration ≡ true
      → All (λ r. is_tracked r ≡ true) (drop n (longer duration h))
  recent_slow duration h n slow e =
      All-drop (λ r. is_tracked r ≡ true) n _
        (All-append (λ r. is_tracked r ≡ true) h.runtimes (duration ∷ []) slow (e, tt))

  pub add_runtime_slow :
      (now : Text) (duration : F) (h : RuntimeHistory F)
      → All (λ r. is_tracked r ≡ true) h.runtimes
      → All (λ r. is_tracked r ≡ true) (add_runtime now duration h).runtimes
  unfolding add_runtime
  add_runtime_slow now duration h slow = elim (Bool-cases (is_tracked duration)) [
    | inr e ↦ rw e slow
    | inl e ↦ rw (add_runtime_tracked now duration h e) (recent_slow duration h _ slow e)
  ]

  -- A bounded history stays bounded when a run of any duration is added.
  pub add_runtime-IsBounded :
      (now : Text) (duration : F) (h : RuntimeHistory F)
      → IsBounded h
      → IsBounded (add_runtime now duration h)
  unfolding add_runtime
  add_runtime-IsBounded now duration h b = elim (Bool-cases (is_tracked duration)) [
    | inr e ↦ rw e b
    | inl e ↦ rw (add_runtime_tracked now duration h e) (record {
      few = omega (
        arith,
        length-drop (length (longer duration h) - max_runtime_history) (longer duration h),
      );
      slow = recent_slow duration h _ b.slow e;
    })
  ]

  -- A run time below the threshold changes nothing in a history. Any other is the newest one: the
  -- history has the time of the change and its old name, and of its run times and the new one it
  -- keeps the newest, without a change in their order, and drops as many of the oldest as there are
  -- more than 50.
  pub add_runtime_lem :
      (now : Text) (duration : F) (h : RuntimeHistory F)
      → (is_tracked duration ≡ false) × (add_runtime now duration h ≡ h)
        ⊎ (is_tracked duration ≡ true)
          × ((add_runtime now duration h).last_updated ≡ now)
          × ((add_runtime now duration h).test_name ≡ h.test_name)
          × ((oldest : List F) × (oldest ++ (add_runtime now duration h).runtimes
                ≡ h.runtimes ++ duration ∷ [])
              × (length oldest ≡ length h.runtimes + 1 - max_runtime_history))
  unfolding add_runtime
  add_runtime_lem now duration h = elim (Bool-cases (is_tracked duration)) [
    | inr e ↦ inl (e, rw e)
    | inl e ↦
        let all = longer duration h in
        let n = length all - max_runtime_history in
        let count : length all ≡ length h.runtimes + 1 = length-append h.runtimes (duration ∷ []) in
        let after = add_runtime_tracked now duration h e in
        inr (
          e,
          ap (λ (g : RuntimeHistory F). g.last_updated) after,
          ap (λ (g : RuntimeHistory F). g.test_name) after,
          (take n all, rw after (take-append-drop n all), omega (arith, length-take n all, count)),
        )
  ]
