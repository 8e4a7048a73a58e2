-- ===== src/Operator/StatefulSet/Watch.antt =====
-- How `start` of rust/operator-binary/src/restart_controller/statefulset.rs hands a store over: the
-- closure that sees each item of a watch has the initializer of a cell, until it takes it.
use commons_operator.Prelude.{
  ℕ, ◌≡◌, refl, sym, ap, ◌∙◌, ◌⊎◌, inl, inr, Bool, true, false, Option, some, ◌∷◌,
}
use commons_operator.Operator.{Outcome, ok}
use commons_operator.Operator.Delayed.{
  InitDropped, Oneshot, IsOneshot, Cell, Step, init_step, here, next, Reach, new, init, scheduled,
  released,
}
use commons_operator.Operator.Delayed.Refines.{
  Once, Use, write, read, outcome_of, Simulated, Step-Simulated, Reach-Refines, outcome-send_to,
  unwritten,
}
use commons_operator.Operator.Delayed.Returns.{Alone, get-Returns}

-- `cm_store_tx`, whether it is `Some`, and the cell.
pub record Watch (C T : Type 0) : Type 0 where
  pub store_tx : Bool
  pub cell : Cell C T

Use-outcome :
    {T : Type 0} {a b : Once T} (r : Outcome T InitDropped)
    → Use a b
    → a.outcome ≡ some r
    → b.outcome ≡ some r
Use-outcome r (write a r' e) h = cc (e, h)
Use-outcome r (read a r' e) h = h

module _ {C T : Type 0} (o : Oneshot C T) (store : T) where
  -- `if let Some(tx) = cm_store_tx.take() { tx.init(cm_reader.clone()); }`
  abbrev pub take_tx : Bool → Cell C T → Watch C T
  take_tx true cell = record { store_tx = false; cell = init o store cell }
  take_tx false cell = record { store_tx = false; cell = cell }

  unfoldable pub inspect_item : Watch C T → Watch C T
  inspect_item w = take_tx w.store_tx w.cell

  abbrev pub start_watch : Watch C T
  start_watch = record { store_tx = true; cell = new o }

  -- The watch has an item, of whatever kind, or a task goes on with its call of `get`.
  pub data Move : Watch C T → Watch C T → Type 0 where
    item : (w : Watch C T) → Move w (inspect_item w)
    task :
        (w : Watch C T) (cell : Cell C T)
        → Step o w.cell cell
        → cell.initializer ≡ w.cell.initializer
        → Move w (record w { cell = cell })

  pub data Moves : Watch C T → Type 0 where
    begin : Moves start_watch
    more : {w v : Watch C T} → Moves w → Move w v → Moves v

module _ {C T : Type 0} (o : Oneshot C T) (doc : IsOneshot C T o) (store : T) where
  outcome : Cell C T → Option (Outcome T InitDropped)
  outcome cell = outcome_of o doc cell.state

  -- The cell runs as its tasks and one initializer let it, and what came from that is the store.
  record IsHeld (w : Watch C T) : Type 0 where
    reached : Reach o w.cell
    held : w.cell.initializer ≡ w.store_tx
    came : (w.store_tx ≡ true) ⊎ (outcome w.cell ≡ some (ok store))

  task-outcome :
      (s t : Cell C T)
      → Simulated o doc s t
      → outcome s ≡ some (ok store)
      → outcome t ≡ some (ok store)
  unfolding outcome
  task-outcome s t (written, inl same) h = sym (ap (λ (a : Once T). a.outcome) same) ∙ h
  task-outcome s t (written, inr used) h = Use-outcome (ok store) used h

  take_tx-IsHeld :
      (tx : Bool) (cell : Cell C T)
      → Reach o cell
      → cell.initializer ≡ tx
      → (tx ≡ true) ⊎ (outcome cell ≡ some (ok store))
      → IsHeld (take_tx o store tx cell)
  unfolding outcome init
  take_tx-IsHeld true cell reach held came = record {
    reached = next reach (init_step store cell held);
    held = refl;
    came = inr (
        outcome-send_to o doc store cell.state
          (unwritten o doc _ _ (Reach-Refines o doc reach).0 held));
  }
  take_tx-IsHeld false cell reach held (inl yet) = cc yet
  take_tx-IsHeld false cell reach held (inr came) = record {
    reached = reach;
    held = held;
    came = inr came;
  }

  Move-IsHeld : {w v : Watch C T} → Move o store w v → IsHeld w → IsHeld v
  unfolding inspect_item
  Move-IsHeld (item w) h = take_tx-IsHeld w.store_tx w.cell h.reached h.held h.came
  Move-IsHeld (task w cell st same) h = record {
    reached = next h.reached st;
    held = same ∙ h.held;
    came = later h.came;
  }
    where
      later :
          (w.store_tx ≡ true) ⊎ (outcome w.cell ≡ some (ok store))
          → (w.store_tx ≡ true) ⊎ (outcome cell ≡ some (ok store))
      later (inl yet) = inl yet
      later (inr came) = inr (
          task-outcome w.cell cell (Step-Simulated o doc st (Reach-Refines o doc h.reached).0) came)

  Moves-IsHeld : {w : Watch C T} → Moves o store w → IsHeld w
  unfolding new
  Moves-IsHeld begin = record { reached = here; held = refl; came = inl refl }
  Moves-IsHeld (more ms m) = Move-IsHeld m (Moves-IsHeld ms)

  -- Where the channel does what it documents: once the watch of a store has had an item, whatever
  -- items it has and whatever the tasks do and in whatever order, a call of get that is running
  -- returns the store, by steps of its own alone.
  pub Moves-get :
      {w : Watch C T} (i : ℕ)
      → Moves o store w
      → w.store_tx ≡ false
      → (w.cell.stage i ≡ scheduled) ⊎ (w.cell.stage i ≡ released)
      → (t : Cell C T) × Alone o i w.cell t × (t.returned ≡ ok store ∷ w.cell.returned)
  unfolding outcome
  Moves-get {w} i ms taken running =
      let h = Moves-IsHeld ms in
      let (r, there, t, alone, e) = get-Returns o doc i h.reached (h.held ∙ taken) running in
      (t, alone, e ∙ ap (λ x. x ∷ w.cell.returned) (is_store h.came r there))
    where
      is_store :
          (w.store_tx ≡ true) ⊎ (outcome w.cell ≡ some (ok store))
          → (r : Outcome T InitDropped) → outcome w.cell ≡ some r
          → r ≡ ok store
      is_store (inl yet) r there = cc (yet, taken)
      is_store (inr came) r there = cc (came, there)
