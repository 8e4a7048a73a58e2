-- ===== src/Operator/Delayed.antt =====
-- rust/operator-binary/src/utils/delayed_init.rs: a value that another task sets once. The tasks are
-- numbered, and a step is what a task does under one lock, so that any task may act in between.
pub mod Refines
pub mod Returns
pub mod Wakes
use commons_operator.Prelude.{
  ℕ, ◌==◌, ◌≡◌, Bool, true, false, Option, none, some, List, [], ◌∷◌, if◌then◌else◌,
}
use commons_operator.Operator.{Outcome, ok, err, Poll, pending, ready}

pub data InitDropped : Type 0 where
  init_dropped : InitDropped

pub data Canceled : Type 0 where
  canceled : Canceled

-- `futures::channel::oneshot`, by the state that the two halves share. `wakes` is the task whose
-- poll was the last one that found nothing.
pub record Oneshot (C T : Type 0) : Type 0 where
  pub channel : C
  pub send : T → C → C
  pub drop_sender : C → C
  pub poll_unpin : ℕ → C → Poll (Outcome T Canceled) × C
  pub wakes : C → Option ℕ

-- What its documentation says, with what has come through the channel as a view. A poll is ready once
-- the sender has sent or is gone. `Future::poll`: "on multiple calls to poll, only the Waker from the
-- Context passed to the most recent call should be scheduled to receive a wakeup".
pub record IsOneshot (C T : Type 0) (o : Oneshot C T) : Type 0 where
  pub came : C → Option (Outcome T Canceled)
  pub came-channel : came o.channel ≡ none
  pub came-send : (v : T) (c : C) → came c ≡ none → came (o.send v c) ≡ some (ok v)
  pub came-drop_sender : (c : C) → came c ≡ none → came (o.drop_sender c) ≡ some (err canceled)
  pub poll-none : (i : ℕ) (c : C) → came c ≡ none → (o.poll_unpin i c).0 ≡ pending
  pub came-poll : (i : ℕ) (c : C) → came c ≡ none → came (o.poll_unpin i c).1 ≡ none
  pub poll-some :
      (i : ℕ) (c : C) (r : Outcome T Canceled) → came c ≡ some r → (o.poll_unpin i c).0 ≡ ready r
  pub wakes-poll : (i : ℕ) (c : C) → came c ≡ none → o.wakes (o.poll_unpin i c).1 ≡ some i

pub data ReceiverState (C T : Type 0) : Type 0 where
  waiting : C → ReceiverState C T
  memoized : Outcome T InitDropped → ReceiverState C T

-- Where a call of `get` is: between its locks it holds none.
pub data Stage : Type 0 where
  idle scheduled released asleep : Stage

pub record Cell (C T : Type 0) : Type 0 where
  -- The `Initializer` is still there.
  pub initializer : Bool
  pub state : ReceiverState C T
  pub stage : ℕ → Stage
  -- What the calls of `get` have returned, the last one first.
  pub returned : List (Outcome T InitDropped)

abbrev pub set : ℕ → Stage → (ℕ → Stage) → ℕ → Stage
set i x f j = if j == i then x else f j

-- A task that sleeps and is woken polls again.
abbrev pub rouse : Stage → Stage
rouse idle = idle
rouse scheduled = scheduled
rouse released = released
rouse asleep = scheduled

abbrev pub wake : Option ℕ → (ℕ → Stage) → ℕ → Stage
wake none f = f
wake (some i) f = set i (rouse (f i)) f

module _ {T : Type 0} where
  -- `map_err(|_| InitDropped)`
  unfoldable pub map_err : Outcome T Canceled → Outcome T InitDropped
  map_err (ok v) = ok v
  map_err (err e) = err init_dropped

module _ {C T : Type 0} (o : Oneshot C T) where
  -- `DelayedInit::new`
  unfoldable pub new : Cell C T
  new = record { initializer = true; state = waiting o.channel; stage = λ i. idle; returned = [] }

  abbrev pub send_to : T → ReceiverState C T → ReceiverState C T
  send_to v (waiting c) = waiting (o.send v c)
  send_to v (memoized r) = memoized r

  abbrev pub drop_sender_of : ReceiverState C T → ReceiverState C T
  drop_sender_of (waiting c) = waiting (o.drop_sender c)
  drop_sender_of (memoized r) = memoized r

  abbrev pub wakes_of : ReceiverState C T → Option ℕ
  wakes_of (waiting c) = o.wakes c
  wakes_of (memoized r) = none

  -- `Initializer::init`, and the end of an `Initializer` that was not used.
  unfoldable pub init : T → Cell C T → Cell C T
  init v s = record s {
    initializer = false;
    state = send_to v s.state;
    stage = wake (wakes_of s.state) s.stage;
  }

  unfoldable pub drop_initializer : Cell C T → Cell C T
  drop_initializer s = record s {
    initializer = false;
    state = drop_sender_of s.state;
    stage = wake (wakes_of s.state) s.stage;
  }

  -- `DelayedInitGet::poll` under the read lock, and under the write lock.
  unfoldable pub poll_fast : ReceiverState C T → Option (Outcome T InitDropped)
  poll_fast (waiting c) = none
  poll_fast (memoized r) = some r

  abbrev pub memoize :
      Poll (Outcome T Canceled) × C → Poll (Outcome T InitDropped) × ReceiverState C T
  unfolding map_err
  memoize (pending, c) = (pending, waiting c)
  memoize (ready r, c) = (ready (map_err r), memoized (map_err r))

  unfoldable pub poll_slow :
      ℕ → ReceiverState C T → Poll (Outcome T InitDropped) × ReceiverState C T
  unfolding map_err
  poll_slow i (waiting c) = memoize (o.poll_unpin i c)
  poll_slow i (memoized r) = (ready r, memoized r)

  abbrev pub read_locked : ℕ → Option (Outcome T InitDropped) → Cell C T → Cell C T
  read_locked i none s = record s { stage = set i released s.stage }
  read_locked i (some r) s = record s { stage = set i idle s.stage; returned = r ∷ s.returned }

  unfoldable pub read_lock : ℕ → Cell C T → Cell C T
  unfolding poll_fast
  read_lock i s = read_locked i (poll_fast s.state) s

  abbrev pub write_locked :
      ℕ → Poll (Outcome T InitDropped) × ReceiverState C T → Cell C T → Cell C T
  write_locked i (pending, st) s = record s { state = st; stage = set i asleep s.stage }
  write_locked i (ready r, st) s = record s {
    state = st;
    stage = set i idle s.stage;
    returned = r ∷ s.returned;
  }

  unfoldable pub write_lock : ℕ → Cell C T → Cell C T
  unfolding poll_slow
  write_lock i s = write_locked i (poll_slow i s.state) s

  -- The next poll of the call is at its start.
  abbrev pub get : ℕ → Cell C T → Cell C T
  get i s = record s { stage = set i scheduled s.stage }

  -- One step: a task calls `get`, or goes on with a call under its next lock, or polls a call again that
  -- nothing has woken, as `Future::poll` allows, or the initializer acts.
  pub data Step : Cell C T → Cell C T → Type 0 where
    get_step : (i : ℕ) (s : Cell C T) → s.stage i ≡ idle → Step s (get i s)
    read_step : (i : ℕ) (s : Cell C T) → s.stage i ≡ scheduled → Step s (read_lock i s)
    write_step : (i : ℕ) (s : Cell C T) → s.stage i ≡ released → Step s (write_lock i s)
    repoll_step : (i : ℕ) (s : Cell C T) → s.stage i ≡ asleep → Step s (get i s)
    init_step : (v : T) (s : Cell C T) → s.initializer ≡ true → Step s (init v s)
    drop_step : (s : Cell C T) → s.initializer ≡ true → Step s (drop_initializer s)

  pub data Steps (s : Cell C T) : Cell C T → Type 0 where
    here : Steps s s
    next : {t u : Cell C T} → Steps s t → Step t u → Steps s u

  abbrev pub Reach : Cell C T → Type 0
  Reach s = Steps new s
