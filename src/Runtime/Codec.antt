-- ===== src/Runtime/Codec.antt =====
-- A history as a dictionary, and what is read back of it: the forms in which
-- scripts/auto-retry-tests.py keeps `RuntimeHistory` in a file.
use commons_operator.Prelude.{
  ◌≡◌, refl, true, Option, none, some, List, [], ◌∷◌, map, codes, keep, keep-All, text_eq, All,
}
use commons_operator.Prelude.Dict.{Dict, lookup}
use commons_operator.Float.{Float}
use commons_operator.Json.{
  Value, float, str, arr, obj, to_items, to_fields, as_dict, as_list, as_text, as_float, require,
  traverse, ◌>>=◌, of_items-to_items, traverse-map,
}
use commons_operator.Runtime.{RuntimeHistory, is_tracked}

module _ {F : Type 0} where
  -- `asdict(history)`
  unfoldable pub history_dict : RuntimeHistory F → Value F
  history_dict h = obj (
      to_fields (
        (codes "test_name", str h.test_name)
        ∷ (codes "runtimes", arr (to_items (map (λ r. float r) h.runtimes)))
        ∷ (codes "last_updated", str h.last_updated)
        ∷ []))

module _ {F : Type 0} ⦃d : Float F⦄ where
  -- What `load_runtime_history` makes of one entry: `none` inside stands for no valid run time. A
  -- missing name raises a KeyError; so does here a value of another type.
  abbrev pub history_with : Dict (Value F) → List F → Option (Option (RuntimeHistory F))
  history_with entry [] = some none
  history_with entry (r ∷ rs) = do
    test_name ← require as_text (codes "test_name") entry
    last_updated ← require as_text (codes "last_updated") entry
    some (some (record { test_name = test_name; runtimes = r ∷ rs; last_updated = last_updated }))

  unfoldable pub history_of : Value F → Option (Option (RuntimeHistory F))
  history_of v = do
    entry ← as_dict v
    values ← require as_list (codes "runtimes") entry
    runtimes ← traverse as_float values
    history_with entry (keep is_tracked runtimes)

  -- A history with run times, none of them a quick failure, is read back as it was written.
  pub history_of-history_dict :
      (h : RuntimeHistory F) (r : F) (rs : List F)
      → h.runtimes ≡ r ∷ rs
      → All (λ x. is_tracked x ≡ true) h.runtimes
      → history_of (history_dict h) ≡ some (some h)
  unfolding history_of history_dict lookup text_eq require
  history_of-history_dict h r rs e slow = cc (
    e,
    keep-All is_tracked h.runtimes slow,
    of_items-to_items (map (λ x. float x) h.runtimes),
    traverse-map as_float (λ x. float x) (λ x. refl) h.runtimes,
  )
