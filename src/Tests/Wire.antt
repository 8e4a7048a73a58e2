-- ===== src/Tests/Wire.antt =====
-- A channel as `futures::channel::oneshot` documents it, and two calls of `get` that wait on it.
use commons_operator.Prelude.{ℕ, true, false, ◌≡◌, ◌⊎◌, refl, Option, none, some, ◌∷◌, inl}
use commons_operator.Operator.{Outcome, ok, err, Poll, pending, ready}
use commons_operator.Operator.Delayed.{
  InitDropped, Canceled, canceled, Oneshot, IsOneshot, Cell, scheduled, asleep, here, next, Reach,
  get_step, read_step, write_step, init_step, new, init, get, read_lock, write_lock,
}
use commons_operator.Operator.Delayed.Refines.{
  Uses, empty, abstraction, IsWritten, outcome_of, Reach-Refines,
}
use commons_operator.Operator.Delayed.Returns.{Alone}
use commons_operator.Operator.StatefulSet.Watch.{
  Watch, inspect_item, task, item, Moves, begin, more, Moves-get,
}
use commons_operator.Operator.Delayed.Wakes.{left, moves, write_lock-overtakes}

record Wire : Type 0 where
  sent : Option (Outcome ℕ Canceled)
  waker : Option ℕ

abbrev poll_wire : ℕ → Wire → Option (Outcome ℕ Canceled) → Poll (Outcome ℕ Canceled) × Wire
poll_wire i c none = (pending, record c { waker = some i })
poll_wire i c (some r) = (ready r, c)

abbrev wire : Oneshot Wire ℕ
wire = record {
  channel = record { sent = none; waker = none };
  send = λ v c. record c { sent = some (ok v) };
  drop_sender = λ c. record c { sent = some (err canceled) };
  poll_unpin = λ i c. poll_wire i c c.sent;
  wakes = λ c. c.waker;
}

wire-IsOneshot : IsOneshot Wire ℕ wire
wire-IsOneshot = record {
  came = λ c. c.sent;
  came-channel = refl;
  came-send = λ v c h. refl;
  came-drop_sender = λ c h. refl;
  poll-none = λ i c h. rw h refl;
  came-poll = λ i c h. rw h refl;
  poll-some = λ i c r h. rw h refl;
  wakes-poll = λ i c h. rw h refl;
}

-- Both call `get`; 0 finds nothing, and 1 is about to take the write lock.
abbrev both : Cell Wire ℕ
unfolding new read_lock write_lock
both = read_lock wire 1 (write_lock wire 0 (read_lock wire 0 (get wire 1 (get wire 0 (new wire)))))

both-Reach : Reach wire both
unfolding new read_lock write_lock both
both-Reach =
    next
      (next (next (next (next here (get_step 0 _ refl)) (get_step 1 _ refl)) (read_step 0 _ refl))
        (write_step 0 _ refl))
      (read_step 1 _ refl)

-- 0 goes to sleep, 1 too, the initializer acts and 1 runs again.
abbrev after : Cell Wire ℕ
after = init wire 7 (write_lock wire 1 both)

after-Reach : Reach wire after
unfolding both
after-Reach = next (next both-Reach (write_step 1 _ refl)) (init_step 7 _ refl)

abbrev returned : Cell Wire ℕ
returned = write_lock wire 1 (read_lock wire 1 after)

returned-Reach : Reach wire returned
unfolding new init read_lock write_lock
returned-Reach = next (next after-Reach (read_step 1 _ refl)) (write_step 1 _ refl)

Reach-Refines_example :
    IsWritten wire wire-IsOneshot returned × Uses empty (abstraction wire wire-IsOneshot returned)
Reach-Refines_example = Reach-Refines wire wire-IsOneshot returned-Reach

-- 0 calls `get`, and then the watch has two items.
abbrev watched : Watch Wire ℕ
watched = record { store_tx = false; cell = init wire 7 (get wire 0 (new wire)) }

watched-Moves : Moves wire 7 watched
unfolding new init inspect_item
watched-Moves = more (more (more begin (task _ _ (get_step 0 _ refl) refl)) (item _)) (item _)

Moves-get_example :
    (t : Cell Wire ℕ) × Alone wire 0 watched.cell t × (t.returned ≡ ok 7 ∷ watched.cell.returned)
unfolding new init
Moves-get_example = Moves-get wire wire-IsOneshot 7 0 watched-Moves refl (inl refl)

write_lock-overtakes_example :
    ((init wire 3 (write_lock wire 1 both)).stage 1 ≡ scheduled)
    × (returned.stage 0 ≡ asleep)
    × ((returned.initializer ≡ true)
        ⊎ ((r : Outcome ℕ InitDropped) × (outcome_of wire wire-IsOneshot returned.state ≡ some r)
            × (u : Cell Wire ℕ) × Alone wire 0 (get wire 0 returned) u
            × (u.returned ≡ r ∷ returned.returned)))
unfolding init write_lock read_lock new
write_lock-overtakes_example =
    write_lock-overtakes wire wire-IsOneshot 0 1 3 both-Reach refl refl refl (
      moves (moves (moves left (init_step 7 _ refl) refl) (read_step 1 _ refl) refl)
        (write_step 1 _ refl) refl)
