-- ===== src/Runner/Report/Plain/Statistics.antt =====
-- The numbers of `_add_runtime_statistics_to_report`.
use commons_operator.Prelude.{List, [], ◌∷◌, ◌++◌, map, Text, if◌then◌else◌}
use commons_operator.Prelude.Dict.{Dict}
use commons_operator.Float.{Float}
use commons_operator.Runtime.{RuntimeHistory, get_average_runtime}

module _ {F : Type 0} where
  unfoldable pub all_runtimes : Dict (RuntimeHistory F) → List F
  all_runtimes [] = []
  all_runtimes ((name, history) ∷ histories) = history.runtimes ++ all_runtimes histories

module _ {F : Type 0} ⦃d : Float F⦄ where
  unfoldable pub test_averages : Dict (RuntimeHistory F) → List (Text × F)
  test_averages histories = map (λ e. (e.0, get_average_runtime e.1)) histories

  -- The place of an entry is behind those that are not below it.
  unfoldable pub insert_slower : Text × F → List (Text × F) → List (Text × F)
  insert_slower entry [] = entry ∷ []
  insert_slower entry (next ∷ rest) =
      if d.lt next.1 entry.1 then entry ∷ next ∷ rest else next ∷ insert_slower entry rest

  unfoldable pub slower_onto : List (Text × F) → List (Text × F) → List (Text × F)
  slower_onto done [] = done
  slower_onto done (entry ∷ rest) = slower_onto (insert_slower entry done) rest

  -- `sort(key=lambda x: x[1], reverse=True)`, which keeps the order of equal entries.
  unfoldable pub slowest_first : List (Text × F) → List (Text × F)
  unfolding insert_slower slower_onto
  slowest_first entries = slower_onto [] entries
