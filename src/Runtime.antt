-- ===== src/Runtime.antt =====
-- `RuntimeHistory` of scripts/auto-retry-tests.py: the run times of one test, in seconds.
pub mod Record
pub mod Codec
use commons_operator.Prelude.{
  ℕ, zero, suc, ◌+◌, ◌-◌, ◌/◌, ◌%◌, Bool, true, false, List, [], ◌∷◌, ◌++◌, Text, length, drop, ltb,
  ◌==◌, if◌then◌else◌,
}
use commons_operator.Float.{Float}

-- `TestConstants.MIN_RUNTIME_THRESHOLD` is 30.0, in whole seconds here.
abbrev pub min_runtime_threshold : ℕ
min_runtime_threshold = 30

-- `TestConstants.MAX_RUNTIME_HISTORY`
abbrev pub max_runtime_history : ℕ
max_runtime_history = 50

pub record RuntimeHistory (F : Type 0) : Type 0 where
  pub test_name : Text
  pub runtimes : List F
  pub last_updated : Text

module _ {F : Type 0} ⦃d : Float F⦄ where
  -- `runtime >= TestConstants.MIN_RUNTIME_THRESHOLD`
  abbrev pub is_tracked : F → Bool
  is_tracked runtime = d.le (d.of_ℕ min_runtime_threshold) runtime

  -- `now` is what `datetime.now().isoformat()` returns.
  unfoldable pub add_runtime : Text → F → RuntimeHistory F → RuntimeHistory F
  add_runtime now duration h =
      let longer = h.runtimes ++ duration ∷ [] in
      if is_tracked duration
      then record h {
        runtimes =
            if ltb max_runtime_history (length longer)
            then drop (length longer - max_runtime_history) longer
            else longer;
        last_updated = now;
      }
      else h

  abbrev pub average_of : List F → F
  average_of [] = d.of_ℕ 0
  average_of (x ∷ xs) = d.mean (x ∷ xs)

  unfoldable pub get_average_runtime : RuntimeHistory F → F
  get_average_runtime h = average_of h.runtimes

  -- `sorted(xs)`: the place of an element is behind those that are not above it.
  unfoldable pub insert_sorted : F → List F → List F
  insert_sorted x [] = x ∷ []
  insert_sorted x (y ∷ ys) = if d.lt x y then x ∷ y ∷ ys else y ∷ insert_sorted x ys

  unfoldable pub sorted_onto : List F → List F → List F
  sorted_onto done [] = done
  sorted_onto done (x ∷ xs) = sorted_onto (insert_sorted x done) xs

  abbrev item : List F → ℕ → F
  item [] i = d.of_ℕ 0
  item (x ∷ xs) zero = x
  item (x ∷ xs) (suc i) = item xs i

  -- `statistics.median(xs)` of some values: the middle one, or the mean of the two in the middle.
  unfoldable pub median : List F → F
  unfolding insert_sorted sorted_onto
  median xs =
      let data_sorted = sorted_onto [] xs in
      let n = length xs in
      if n % 2 == 1
      then item data_sorted (n / 2)
      else d.div (d.add (item data_sorted (n / 2 - 1)) (item data_sorted (n / 2))) (d.of_ℕ 2)

  unfoldable pub get_median_runtime : RuntimeHistory F → F
  get_median_runtime h = elim h.runtimes [ [] ↦ d.of_ℕ 0 | x ∷ xs ↦ median (x ∷ xs) ]

  -- `min(m, *xs)` and `max(m, *xs)`: an equal element does not replace the one that is held.
  unfoldable pub least : F → List F → F
  least m [] = m
  least m (x ∷ xs) = least (if d.lt x m then x else m) xs

  unfoldable pub greatest : F → List F → F
  greatest m [] = m
  greatest m (x ∷ xs) = greatest (if d.lt m x then x else m) xs

  abbrev pub range_of : List F → F × F
  range_of [] = (d.of_ℕ 0, d.of_ℕ 0)
  range_of (x ∷ xs) = (least x xs, greatest x xs)

  unfoldable pub get_runtime_range : RuntimeHistory F → F × F
  unfolding least greatest
  get_runtime_range h = range_of h.runtimes

  unfoldable pub estimate_remaining_time : RuntimeHistory F → F
  estimate_remaining_time h = get_average_runtime h
