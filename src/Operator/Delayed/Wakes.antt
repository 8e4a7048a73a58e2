-- ===== src/Operator/Delayed/Wakes.antt =====
-- Which calls of `get` in rust/operator-binary/src/utils/delayed_init.rs are woken.
use commons_operator.Prelude.{
  ℕ, ◌==◌, ==_iff, ◌≡◌, ◌≢◌, refl, Bool, ◌∷◌, sym, ap, ◌∙◌, inl, inr, ◌⊎◌, Bool-cases, true, false,
  not, Option, none, some, arith,
}
use commons_operator.Operator.{Outcome, Poll, pending, ready, is_some}
use commons_operator.Operator.Delayed.{
  InitDropped, Oneshot, IsOneshot, ReceiverState, waiting, memoized, Cell, Stage, scheduled,
  released, idle, asleep, Step, get_step, read_step, write_step, repoll_step, init_step, drop_step,
  next, Reach, get, init, drop_initializer, set, wake, rouse, wakes_of, read_lock, write_lock,
  read_locked, write_locked, poll_slow, memoize,
}
use commons_operator.Operator.Delayed.Refines.{
  IsWritten, outcome_of, unmapped, poll_slow-cases, Reach-Refines,
}
use commons_operator.Operator.Delayed.Returns.{set_same, set_other, Alone, get-Returns}

module _ {C T : Type 0} (o : Oneshot C T) (doc : IsOneshot C T o) where
  -- The sleeper is not the one whom the channel wakes.
  abbrev Overlooked : ℕ → Cell C T → Type 0
  Overlooked i s = (s.stage i ≡ asleep) × (s.initializer ≡ true → wakes_of o s.state ≢ some i)

  read_locked-Overlooked :
      (i j : ℕ) (s : Cell C T) (x : Option (Outcome T InitDropped))
      → i ≢ j
      → Overlooked i s
      → Overlooked i (read_locked o j x s)
  read_locked-Overlooked i j s none other h = (set_other j i released s.stage other ∙ h.0, h.1)
  read_locked-Overlooked i j s (some r) other h = (set_other j i idle s.stage other ∙ h.0, h.1)

  write_locked-Overlooked :
      (i j : ℕ) (s : Cell C T) (p : Poll (Outcome T InitDropped) × ReceiverState C T)
      → i ≢ j
      → s.stage i ≡ asleep
      → (s.initializer ≡ true → wakes_of o p.1 ≢ some i)
      → Overlooked i (write_locked o j p s)
  write_locked-Overlooked i j s (pending, st) other h w =
      (set_other j i asleep s.stage other ∙ h, w)
  write_locked-Overlooked i j s (ready r, st) other h w = (set_other j i idle s.stage other ∙ h, w)

  unwritten :
      (s : Cell C T) → IsWritten o doc s → s.initializer ≡ true → outcome_of o doc s.state ≡ none
  unwritten s h e = no_outcome (outcome_of o doc s.state) (h ∙ ap not e)
    where
      no_outcome : (x : Option (Outcome T InitDropped)) → is_some x ≡ false → x ≡ none
      no_outcome none h = refl
      no_outcome (some r) h = cc h

  poll_slow-wakes :
      (j : ℕ) (st : ReceiverState C T)
      → outcome_of o doc st ≡ none
      → wakes_of o (poll_slow o j st).1 ≡ some j
  unfolding poll_slow
  poll_slow-wakes j (memoized r) h = cc h
  poll_slow-wakes j (waiting c) h =
      let nothing = unmapped o doc (doc.came c) h in
      ap (λ p. wakes_of o (memoize o (p, (o.poll_unpin j c).1)).1) (doc.poll-none j c nothing)
      ∙ doc.wakes-poll j c nothing

  other_woken : (i : ℕ) (x : Option ℕ) (f : ℕ → Stage) → x ≢ some i → wake x f i ≡ f i
  other_woken i none f h = refl
  other_woken i (some k) f h = set_other k i (rouse (f k)) f (λ e. h (ap some (sym e)))

  write_lock-Overlooked :
      (i j : ℕ) (s : Cell C T)
      → IsWritten o doc s
      → i ≢ j
      → s.stage i ≡ asleep
      → Overlooked i (write_lock o j s)
  unfolding write_lock
  write_lock-Overlooked i j s h other e =
      write_locked-Overlooked i j s (poll_slow o j s.state) other e
        (λ held w. other (ground (arith, poll_slow-wakes j s.state (unwritten s h held), w)))

  woken :
      (j : ℕ) (x : Option ℕ) (f : ℕ → Stage) → x ≡ some j → wake x (set j asleep f) j ≡ scheduled
  woken j x f e =
      ap (λ x. wake x (set j asleep f) j) e
      ∙ (set_same j (rouse (set j asleep f j)) (set j asleep f) ∙ ap rouse (set_same j asleep f))

  init-write_lock :
      (j : ℕ) (v : T) (s : Cell C T)
      → outcome_of o doc s.state ≡ none
      → (init o v (write_lock o j s)).stage j ≡ scheduled
  unfolding init write_lock
  init-write_lock j v s nothing = elim (poll_slow-cases o doc j s.state) [
    | inl (empty, (later, polled, still)) ↦
        ap (λ p. (init o v (write_locked o j p s)).stage j) polled
        ∙ woken j (wakes_of o later) s.stage
            (sym (ap (λ p. wakes_of o p.1) polled) ∙ poll_slow-wakes j s.state nothing)
    | inr (r, found, polled) ↦ cc (nothing, found)
  ]

  apart : (i j : ℕ) (f : ℕ → Stage) (x : Stage) → f i ≡ asleep → f j ≡ x → x ≢ asleep → i ≢ j
  apart i j f x hi hj h e = h (sym hj ∙ ap f (sym e) ∙ hi)

  -- The step polls this call though nothing has woken it.
  abbrev pub repolls : ℕ → {s t : Cell C T} → Step o s t → Bool
  repolls i (get_step j s e) = false
  repolls i (read_step j s e) = false
  repolls i (write_step j s e) = false
  repolls i (repoll_step j s e) = j == i
  repolls i (init_step v s e) = false
  repolls i (drop_step s e) = false

  -- Steps of which none does.
  pub data Left (i : ℕ) (s : Cell C T) : Cell C T → Type 0 where
    left : Left i s s
    moves :
        {t u : Cell C T} → Left i s t → (step : Step o t u) → repolls i step ≡ false → Left i s u

  Step-Overlooked :
      {s t : Cell C T} (i : ℕ) (step : Step o s t)
      → repolls i step ≡ false
      → IsWritten o doc s
      → Overlooked i s
      → Overlooked i t
  unfolding init drop_initializer read_lock
  Step-Overlooked i (get_step j s e) q w h =
      (set_other j i scheduled s.stage (apart i j s.stage idle h.0 e (λ q. cc q)) ∙ h.0, h.1)
  Step-Overlooked i (read_step j s e) q w h =
      read_locked-Overlooked i j s _ (apart i j s.stage scheduled h.0 e (λ q. cc q)) h
  Step-Overlooked i (write_step j s e) q w h =
      write_lock-Overlooked i j s w (apart i j s.stage released h.0 e (λ q. cc q)) h.0
  Step-Overlooked i (repoll_step j s e) q w h =
      (set_other j i scheduled s.stage (λ same. cc (q, (==_iff j i).1 (sym same))) ∙ h.0, h.1)
  Step-Overlooked i (init_step v s e) q w h = (other_woken i _ s.stage (h.1 e) ∙ h.0, λ q. cc q)
  Step-Overlooked i (drop_step s e) q w h = (other_woken i _ s.stage (h.1 e) ∙ h.0, λ q. cc q)

  Left-Reach : (i : ℕ) {s t : Cell C T} → Reach o s → Left i s t → Reach o t
  Left-Reach i reach left = reach
  Left-Reach i reach (moves ls step q) = next (Left-Reach i reach ls) step

  Left-Overlooked :
      (i : ℕ) {s t : Cell C T} → Reach o s → Overlooked i s → Left i s t → Overlooked i t
  Left-Overlooked i reach h left = h
  Left-Overlooked i reach h (moves ls step q) =
      Step-Overlooked i step q (Reach-Refines o doc (Left-Reach i reach ls)).0
        (Left-Overlooked i reach h ls)

  -- Where the channel does what it documents: while one call of get sleeps, another polls and the
  -- initializer has not acted. Then init wakes the other, and the first sleeps on, whatever the
  -- tasks and the initializer do, until it is polled without having been woken. If that happens
  -- once the initializer is gone, it returns what came from it, by steps of its own alone.
  pub write_lock-overtakes :
      {s t : Cell C T} (i j : ℕ) (v : T)
      → Reach o s
      → s.initializer ≡ true
      → s.stage i ≡ asleep
      → s.stage j ≡ released
      → Left i (write_lock o j s) t
      → ((init o v (write_lock o j s)).stage j ≡ scheduled)
        × (t.stage i ≡ asleep)
        × ((t.initializer ≡ true)
            ⊎ ((r : Outcome T InitDropped) × (outcome_of o doc t.state ≡ some r)
                × (u : Cell C T) × Alone o i (get o i t) u
                × (u.returned ≡ r ∷ t.returned)))
  write_lock-overtakes {s} {t} i j v reach held sleeps polls steps =
      let polled = next reach (write_step j s polls) in
      let asleep_still =
        (Left-Overlooked i polled
          (write_lock-Overlooked i j s (Reach-Refines o doc reach).0
            (apart i j s.stage released sleeps polls (λ q. cc q)) sleeps)
          steps).0 in
      (
        init-write_lock j v s (unwritten s (Reach-Refines o doc reach).0 held),
        asleep_still,
        elim (Bool-cases t.initializer) [
          | inl there ↦ inl there
          | inr gone ↦ inr (
              get-Returns o doc i (next (Left-Reach i polled steps) (repoll_step i t asleep_still))
                gone (inl (set_same i scheduled t.stage)))
        ],
      )
