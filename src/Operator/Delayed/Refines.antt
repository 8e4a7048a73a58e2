-- ===== src/Operator/Delayed/Refines.antt =====
-- The cell of rust/operator-binary/src/utils/delayed_init.rs as a variable that is written once.
use commons_operator.Prelude.{
  ℕ, ◌≡◌, refl, sym, ap, subst, ◌∙◌, ◌⊎◌, inl, inr, Bool, true, false, not, Option, none, some,
  List, [], ◌∷◌, arith, All, Option-cases,
}
use commons_operator.Operator.{Outcome, ok, err, Poll, pending, ready, is_some}
use commons_operator.Operator.Delayed.{
  InitDropped, init_dropped, Canceled, Oneshot, IsOneshot, ReceiverState, waiting, memoized, Cell,
  Stage, Step, get_step, read_step, write_step, repoll_step, init_step, drop_step, here, next,
  Reach, map_err, new, init, drop_initializer, send_to, drop_sender_of, read_lock, write_lock,
  read_locked, write_locked, poll_fast, poll_slow, memoize,
}

-- The abstract variable, with what the reads of it have returned.
pub record Once (T : Type 0) : Type 0 where
  pub outcome : Option (Outcome T InitDropped)
  pub returned : List (Outcome T InitDropped)

-- It is written while it is empty, and read when it is not.
pub data Use {T : Type 0} : Once T → Once T → Type 0 where
  write :
      (a : Once T) (r : Outcome T InitDropped)
      → a.outcome ≡ none
      → Use a (record a { outcome = some r })
  read :
      (a : Once T) (r : Outcome T InitDropped)
      → a.outcome ≡ some r
      → Use a (record a { returned = r ∷ a.returned })

pub data Uses {T : Type 0} (a : Once T) : Once T → Type 0 where
  start : Uses a a
  then : {b c : Once T} → Uses a b → Use b c → Uses a c

abbrev pub empty : {T : Type 0} → Once T
empty = record { outcome = none; returned = [] }

module _ {C T : Type 0} (o : Oneshot C T) (doc : IsOneshot C T o) where
  abbrev pub mapped : Option (Outcome T Canceled) → Option (Outcome T InitDropped)
  mapped none = none
  mapped (some r) = some (map_err r)

  abbrev pub outcome_of : ReceiverState C T → Option (Outcome T InitDropped)
  outcome_of (waiting c) = mapped (doc.came c)
  outcome_of (memoized r) = some r

  -- What a reader of the cell can tell.
  abbrev pub abstraction : Cell C T → Once T
  abstraction s = record { outcome = outcome_of s.state; returned = s.returned }

  -- The value is there as soon as the initializer is gone, and not before.
  abbrev pub IsWritten : Cell C T → Type 0
  IsWritten s = is_some (outcome_of s.state) ≡ not s.initializer

  pub unwritten :
      (x : Option (Outcome T InitDropped)) (b : Bool) → is_some x ≡ not b → b ≡ true → x ≡ none
  unwritten none b h e = refl
  unwritten (some r) b h e = cc (h, e)

  pub unmapped : (x : Option (Outcome T Canceled)) → mapped x ≡ none → x ≡ none
  unmapped none h = refl
  unmapped (some r) h = cc h

  pub outcome-send_to :
      (v : T) (st : ReceiverState C T)
      → outcome_of st ≡ none
      → outcome_of (send_to o v st) ≡ some (ok v)
  unfolding map_err
  outcome-send_to v (waiting c) h = rw (doc.came-send v c (unmapped (doc.came c) h))
  outcome-send_to v (memoized r) h = cc h

  outcome-drop_sender_of :
      (st : ReceiverState C T)
      → outcome_of st ≡ none
      → outcome_of (drop_sender_of o st) ≡ some (err init_dropped)
  unfolding map_err
  outcome-drop_sender_of (waiting c) h = rw (doc.came-drop_sender c (unmapped (doc.came c) h))
  outcome-drop_sender_of (memoized r) h = cc h

  -- The poll under the write lock: it finds nothing and nothing is there, or it finds what is there.
  pub poll_slow-cases :
      (i : ℕ) (st : ReceiverState C T)
      → ((outcome_of st ≡ none)
          × ((later : ReceiverState C T) × (poll_slow o i st ≡ (pending, later))
              × (outcome_of later ≡ none)))
        ⊎ ((r : Outcome T InitDropped) × (outcome_of st ≡ some r)
            × (poll_slow o i st ≡ (ready r, memoized r)))
  unfolding poll_slow
  poll_slow-cases i (memoized r) = inr (r, refl, refl)
  poll_slow-cases i (waiting c) = elim (Option-cases (doc.came c)) [
    | inl e ↦ inl (
      ap mapped e,
      (
        waiting (o.poll_unpin i c).1,
        ap (λ p. memoize o (p, (o.poll_unpin i c).1)) (doc.poll-none i c e),
        ap mapped (doc.came-poll i c e),
      ),
    )
    | inr (r, e) ↦ inr (
      map_err r,
      ap mapped e,
      ap (λ p. memoize o (p, (o.poll_unpin i c).1)) (doc.poll-some i c r e),
    )
  ]

  abbrev pub Simulated : Cell C T → Cell C T → Type 0
  Simulated s t =
      IsWritten t × ((abstraction s ≡ abstraction t) ⊎ Use (abstraction s) (abstraction t))

  poll_fast_sound :
      (st : ReceiverState C T) (r : Outcome T InitDropped)
      → poll_fast o st ≡ some r
      → outcome_of st ≡ some r
  unfolding poll_fast
  poll_fast_sound (waiting c) r h = cc h
  poll_fast_sound (memoized r') r h = h

  read_locked-Simulated :
      (i : ℕ) (s : Cell C T) (found : Option (Outcome T InitDropped))
      → ((r : Outcome T InitDropped) → found ≡ some r → outcome_of s.state ≡ some r)
      → IsWritten s
      → Simulated s (read_locked o i found s)
  read_locked-Simulated i s none sound h = (h, inl refl)
  read_locked-Simulated i s (some r) sound h = (h, inr (read (abstraction s) r (sound r refl)))

  write_locked-Simulated :
      (i : ℕ) (s : Cell C T) (st : ReceiverState C T) (p : Poll (Outcome T InitDropped))
      → outcome_of st ≡ outcome_of s.state
      → ((r : Outcome T InitDropped) → p ≡ ready r → outcome_of s.state ≡ some r)
      → IsWritten s
      → Simulated s (write_locked o i (p, st) s)
  write_locked-Simulated i s st pending same sound h = (
    ap is_some same ∙ h,
    inl (ap (λ x. record { outcome = x; returned = s.returned }) (sym same)),
  )
  write_locked-Simulated i s st (ready r) same sound h = (
    ap is_some same ∙ h,
    inr (
        subst (λ x. Use (abstraction s) (record { outcome = x; returned = r ∷ s.returned }))
          (sym same) (read (abstraction s) r (sound r refl))),
  )

  write_lock-Simulated : (i : ℕ) (s : Cell C T) → IsWritten s → Simulated s (write_lock o i s)
  unfolding write_lock
  write_lock-Simulated i s h = elim (poll_slow-cases i s.state) [
    | inl (nothing, (later, polled, still)) ↦
        subst (λ p. Simulated s (write_locked o i p s)) (sym polled)
          (write_locked-Simulated i s later pending (still ∙ sym nothing) (λ r e. cc e) h)
    | inr (r, there, polled) ↦
        subst (λ p. Simulated s (write_locked o i p s)) (sym polled)
          (write_locked-Simulated i s (memoized r) (ready r) (sym there) (λ r' e. ground arith) h)
  ]

  written-Simulated :
      (s : Cell C T) (st : ReceiverState C T) (stage : ℕ → Stage) (r : Outcome T InitDropped)
      → outcome_of s.state ≡ none
      → outcome_of st ≡ some r
      → Simulated s (record s { initializer = false; state = st; stage = stage })
  written-Simulated s st stage r before after = (
    ap is_some after,
    inr (
        subst (λ x. Use (abstraction s) (record { outcome = x; returned = s.returned })) (sym after)
          (write (abstraction s) r before)),
  )

  pub Step-Simulated : {s t : Cell C T} → Step o s t → IsWritten s → Simulated s t
  unfolding init drop_initializer read_lock
  Step-Simulated (get_step i s e) h = (h, inl refl)
  Step-Simulated (read_step i s e) h = read_locked-Simulated i s _ (poll_fast_sound s.state) h
  Step-Simulated (write_step i s e) h = write_lock-Simulated i s h
  Step-Simulated (repoll_step i s e) h = (h, inl refl)
  Step-Simulated (init_step v s e) h =
      let before = unwritten _ _ h e in
      written-Simulated s _ ((init o v s).stage) (ok v) before (outcome-send_to v s.state before)
  Step-Simulated (drop_step s e) h =
      let before = unwritten _ _ h e in
      written-Simulated s _ ((drop_initializer o s).stage) (err init_dropped) before
        (outcome-drop_sender_of s.state before)

  extended : {a b c : Once T} → Uses a b → (b ≡ c) ⊎ Use b c → Uses a c
  extended {a} us (inl e) = subst (λ x. Uses a x) e us
  extended us (inr u) = then us u

  -- Where the channel does what it documents: whatever the tasks do and in whatever order, the cell is
  -- a variable that is written at most once and only read after that, and it has been written exactly
  -- if the initializer is gone.
  pub Reach-Refines : {s : Cell C T} → Reach o s → IsWritten s × Uses empty (abstraction s)
  unfolding new
  Reach-Refines here = (
    ap (λ x. is_some (mapped x)) doc.came-channel,
    subst (λ x. Uses empty (record { outcome = mapped x; returned = [] })) (sym doc.came-channel)
        start,
  )
  Reach-Refines (next r st) =
      let (h, us) = Reach-Refines r in let (h', u) = Step-Simulated st h in (h', extended us u)

  Uses-agree : {a : Once T} → Uses empty a → All (λ r. a.outcome ≡ some r) a.returned
  Uses-agree start = tt
  Uses-agree (then us (write a r e)) = overwritten a.returned (Uses-agree us)
    where
      overwritten :
          (rs : List (Outcome T InitDropped))
          → All (λ r. a.outcome ≡ some r) rs
          → All (λ x. some r ≡ some x) rs
      overwritten [] h = tt
      overwritten (x ∷ rs) h = (cc (e, h.0), overwritten rs h.1)
  Uses-agree (then us (read a r e)) = (e, Uses-agree us)

  -- Where the channel does what it documents: whatever the tasks do and in whatever order, each call of
  -- `get` that has returned has returned the same, which is what came from the initializer.
  pub returned-Agree :
      {s : Cell C T} → Reach o s → All (λ r. outcome_of s.state ≡ some r) s.returned
  returned-Agree r = Uses-agree (Reach-Refines r).1
