-- ===== src/Operator/Tree.antt =====
-- Rust's `BTreeMap<String, V>`: the entries stand in the order of the keys.
use commons_operator.Prelude.{
  ◌≡◌, ◌==◌, refl, Bool, true, false, ◌&&◌, ◌||◌, some, List, [], ◌∷◌, arith, ltb, Text, text_eq,
  text_eq_iff, if◌then◌else◌,
}
use commons_operator.Prelude.Dict.{Dict, lookup}

-- The order of strings, which is that of their code points.
abbrev pub text_lt : Text → Text → Bool
text_lt s [] = false
text_lt [] (y ∷ t) = true
text_lt (x ∷ s) (y ∷ t) = ltb x y || (x == y && text_lt s t)

module _ {ℓ} {V : Type ℓ} where
  unfoldable pub tree_insert : Text → V → Dict V → Dict V
  tree_insert k v [] = (k, v) ∷ []
  tree_insert k v ((j, w) ∷ d) =
      let rest = tree_insert k v d in
      if text_eq j k
      then (j, v) ∷ d
      else (if text_lt k j then (k, v) ∷ (j, w) ∷ d else (j, w) ∷ rest)

  -- `map.extend(entries)`: a later entry of the same key wins.
  unfoldable pub extend : Dict V → List (Text × V) → Dict V
  unfolding tree_insert
  extend d [] = d
  extend d ((k, v) ∷ entries) = extend (tree_insert k v d) entries

  pub lookup-tree_insert :
      (k j : Text) (v : V) (d : Dict V)
      → lookup j (tree_insert k v d) ≡ (if text_eq k j then some v else lookup j d)
  unfolding lookup tree_insert
  lookup-tree_insert k j v [] = refl
  lookup-tree_insert k j v ((i, w) ∷ d) =
      ground (arith, text_eq_iff k j, text_eq_iff i k, text_eq_iff i j, lookup-tree_insert k j v d)
