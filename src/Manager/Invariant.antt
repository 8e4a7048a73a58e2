-- ===== src/Manager/Invariant.antt =====
-- Every history that the state manager holds is free of quick failures.
use commons_operator.Prelude.{◌≡◌, refl, ap, ◌∙◌, true, Option, none, some, Text, All}
use commons_operator.Prelude.Dict.{lookup, insert}
use commons_operator.Prelude.Dict.Distinct.{
  IsDistinct, insert-IsDistinct, AllValues, insert-AllValues, AllValues-lookup,
}
use commons_operator.Float.{Float}
use commons_operator.Exec.{continue-pure}
use commons_operator.Runtime.{RuntimeHistory, is_tracked, add_runtime}
use commons_operator.Runtime.Record.{add_runtime_slow}
use commons_operator.Manager.{Manager, or_new, update_runtime_history, save_runtime_history}

module _ {F : Type 0} ⦃d : Float F⦄ where
  abbrev pub Slow : RuntimeHistory F → Type 0
  Slow h = All (λ r. is_tracked r ≡ true) h.runtimes

  -- Each test has one history, and no history has a run time below the threshold.
  pub record IsValid (m : Manager F) : Type 0 where
    pub distinct : IsDistinct m.runtime_history
    pub slow : AllValues Slow m.runtime_history

  pub history-save :
      (m : Manager F) → (save_runtime_history m).1.runtime_history ≡ m.runtime_history
  unfolding save_runtime_history
  history-save m = refl

  -- Whether the file can be written or not, the history is updated.
  pub history-update :
      (now name : Text) (duration : F) (m : Manager F)
      → (update_runtime_history now name duration m).1.runtime_history
        ≡ insert name
            (add_runtime now duration (or_new now name (lookup name m.runtime_history)))
            m.runtime_history
  unfolding update_runtime_history
  history-update now name duration m =
      let updated : Manager F = record m {
        runtime_history =
            insert name (add_runtime now duration (or_new now name (lookup name m.runtime_history)))
              m.runtime_history;
      } in
      let (r, after) = save_runtime_history updated in
      ap (λ (n : Manager F). n.runtime_history) (continue-pure r tt after) ∙ history-save updated

  or_new-Slow :
      (now name : Text) (o : Option (RuntimeHistory F))
      → ((h : RuntimeHistory F) → o ≡ some h → Slow h)
      → Slow (or_new now name o)
  or_new-Slow now name none slow = tt
  or_new-Slow now name (some h) slow = slow h refl

  -- Valid histories stay valid when a run time of any length is added, whether or not their file can
  -- be written.
  pub update_runtime_history-IsValid :
      (now name : Text) (duration : F) (m : Manager F)
      → IsValid m
      → IsValid (update_runtime_history now name duration m).1
  update_runtime_history-IsValid now name duration m valid = record {
    distinct = rw history-update (insert-IsDistinct name _ m.runtime_history valid.distinct);
    slow = rw history-update (
        insert-AllValues Slow name _ m.runtime_history
          (add_runtime_slow now duration _ (
            or_new-Slow now name _
              (λ h. AllValues-lookup Slow name h m.runtime_history valid.slow)))
          valid.slow);
  }
