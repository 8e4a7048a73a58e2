-- ===== src/Operator/Delayed/Returns.antt =====
-- What a call of `get` in rust/operator-binary/src/utils/delayed_init.rs returns once the initializer
-- has acted.
use commons_operator.Prelude.{
  ℕ, ◌==◌, ==_iff, ◌≡◌, ◌≢◌, refl, ap, ◌∙◌, ◌⊎◌, inl, inr, true, false, not, Option, none, some,
  ◌∷◌, arith, Bool-cases, if◌then◌else◌,
}
use commons_operator.Operator.{Outcome, is_some}
use commons_operator.Operator.Delayed.{
  InitDropped, Oneshot, IsOneshot, ReceiverState, waiting, memoized, Cell, Stage, scheduled,
  released, Reach, set, read_lock, write_lock, read_locked, write_locked, poll_fast,
}
use commons_operator.Operator.Delayed.Refines.{outcome_of, poll_slow-cases, Reach-Refines}

pub set_same : (i : ℕ) (x : Stage) (f : ℕ → Stage) → set i x f i ≡ x
set_same i x f = ap (λ b. if b then x else f i) ((==_iff i i).1 refl)

pub set_other : (i j : ℕ) (x : Stage) (f : ℕ → Stage) → j ≢ i → set i x f j ≡ f j
set_other i j x f h = elim (Bool-cases (j == i)) [
  | inl e ↦ absurd (h ((==_iff j i).0 e))
  | inr e ↦ ap (λ b. if b then x else f j) e
]

module _ {C T : Type 0} (o : Oneshot C T) where
  -- Steps of one task alone, inside its call of `get`.
  pub data Alone (i : ℕ) (s : Cell C T) : Cell C T → Type 0 where
    stays : Alone i s s
    reads : {t : Cell C T} → Alone i s t → t.stage i ≡ scheduled → Alone i s (read_lock o i t)
    writes : {t : Cell C T} → Alone i s t → t.stage i ≡ released → Alone i s (write_lock o i t)

module _ {C T : Type 0} (o : Oneshot C T) (doc : IsOneshot C T o) where
  write_lock-returned :
      (i : ℕ) (s : Cell C T) (r : Outcome T InitDropped)
      → outcome_of o doc s.state ≡ some r
      → (write_lock o i s).returned ≡ r ∷ s.returned
  unfolding write_lock
  write_lock-returned i s r there = elim (poll_slow-cases o doc i s.state) [
    | inl (nothing, more) ↦ cc (there, nothing)
    | inr (r', found, polled) ↦
        ap (λ p. (write_locked o i p s).returned) polled
        ∙ ap (λ x. x ∷ s.returned) (ground (arith, found, there))
  ]

  written_outcome :
      {s : Cell C T}
      → Reach o s
      → s.initializer ≡ false
      → (r : Outcome T InitDropped) × (outcome_of o doc s.state ≡ some r)
  written_outcome {s} r e =
      from_some (outcome_of o doc s.state) ((Reach-Refines o doc r).0 ∙ ap not e)
    where
      from_some :
          (x : Option (Outcome T InitDropped))
          → is_some x ≡ true
          → (r : Outcome T InitDropped) × (x ≡ some r)
      from_some none h = cc h
      from_some (some r) h = (r, refl)

  -- Where the channel does what it documents and the initializer is gone: a call of `get` that is
  -- running returns what came from the initializer, by steps of its own alone.
  pub get-Returns :
      {s : Cell C T} (i : ℕ)
      → Reach o s
      → s.initializer ≡ false
      → (s.stage i ≡ scheduled) ⊎ (s.stage i ≡ released)
      → (r : Outcome T InitDropped) × (outcome_of o doc s.state ≡ some r)
        × (t : Cell C T) × Alone o i s t
        × (t.returned ≡ r ∷ s.returned)
  unfolding read_lock poll_fast
  get-Returns {s} i reach gone (inr at) =
      let (r, there) = written_outcome reach gone in
      (r, there, write_lock o i s, writes stays at, write_lock-returned i s r there)
  get-Returns {s} i reach gone (inl at) =
      let (r, there) = written_outcome reach gone in
      let (t, alone, e) = by_state s.state refl r there in (r, there, t, alone, e)
    where
      by_state :
          (st : ReceiverState C T)
          → s.state ≡ st
          → (r : Outcome T InitDropped) → outcome_of o doc s.state ≡ some r
          → (t : Cell C T) × Alone o i s t × (t.returned ≡ r ∷ s.returned)
      by_state (memoized r') e r there = (
        read_lock o i s,
        reads stays at,
        ap (λ st. (read_locked o i (poll_fast o st) s).returned) e
            ∙ ap (λ x. x ∷ s.returned) (ground (arith, ap (outcome_of o doc) e, there)),
      )
      by_state (waiting c) e r there =
          let t = read_lock o i s in
          let missed : t ≡ record s { stage = set i released s.stage } =
            ap (λ st. read_locked o i (poll_fast o st) s) e in
          (
            write_lock o i t,
            writes (reads stays at)
                (ap (λ (t : Cell C T). t.stage i) missed ∙ set_same i released s.stage),
            write_lock-returned i t r
                  (ap (λ (t : Cell C T). outcome_of o doc t.state) missed ∙ there)
                ∙ ap (λ (t : Cell C T). r ∷ t.returned) missed,
          )
