-- ===== src/Prelude/Dict/Distinct.antt =====
-- A dictionary has each key once; what is written entry by entry into an empty one is the same.
use mathlib.Core.Path.{◌≡◌, refl, subst}
use mathlib.Core.Logic.{inl, inr}
use mathlib.Core.Option.{none, some}
use mathlib.Core.List.{[], ◌∷◌, ◌++◌}
use native.Mathlib.Omega.{arith}
use commons_operator.Prelude.Str.{Text, text_eq_iff, text_eq_refl, text_eq-cases}
use commons_operator.Prelude.Dict.{Dict, lookup, insert, lookup-insert}

module _ {ℓ} {V : Type ℓ} where
  abbrev pub IsDistinct : Dict V → Type ℓ
  IsDistinct [] = Unit
  IsDistinct ((k, v) ∷ d) = (lookup k d ≡ none) × IsDistinct d

  pub insert-IsDistinct : (k : Text) (v : V) (d : Dict V) → IsDistinct d → IsDistinct (insert k v d)
  unfolding lookup insert
  insert-IsDistinct k v [] h = (refl, tt)
  insert-IsDistinct k v ((j, w) ∷ d) h = elim (text_eq-cases j k) [
    | inl (e, same) ↦ rw e h
    | inr (e, other) ↦
        rw e
          (ground (arith, lookup-insert k j v d, text_eq_iff k j, h.0), insert-IsDistinct k v d h.1)
  ]

  pub insert_fresh :
      (k : Text) (v : V) (d : Dict V) → lookup k d ≡ none → insert k v d ≡ d ++ (k, v) ∷ []
  unfolding lookup insert
  insert_fresh k v [] h = refl
  insert_fresh k v ((j, w) ∷ d) h = ground (arith, insert_fresh k v d)

  lookup-append-none :
      (k : Text) (xs ys : Dict V)
      → lookup k (xs ++ ys) ≡ none
      → (lookup k xs ≡ none) × (lookup k ys ≡ none)
  unfolding lookup
  lookup-append-none k [] ys h = (refl, h)
  lookup-append-none k ((j, w) ∷ xs) ys h = ground (arith, lookup-append-none k xs ys)

  none-lookup-append :
      (k : Text) (xs ys : Dict V)
      → lookup k xs ≡ none
      → lookup k ys ≡ none
      → lookup k (xs ++ ys) ≡ none
  unfolding lookup
  none-lookup-append k [] ys h g = g
  none-lookup-append k ((j, w) ∷ xs) ys h g = ground (arith, none-lookup-append k xs ys)

  lookup_head : (k : Text) (v : V) (d : Dict V) → lookup k ((k, v) ∷ d) ≡ some v
  unfolding lookup
  lookup_head k v d = rw text_eq_refl

  lookup_tail : (j k : Text) (v : V) (d : Dict V) → lookup j ((k, v) ∷ d) ≡ none → lookup j d ≡ none
  unfolding lookup
  lookup_tail j k v d h = ground arith

  -- The key of a later entry does not stand among those before it.
  pub middle_fresh :
      (xs : Dict V) (k : Text) (v : V) (ys : Dict V)
      → IsDistinct (xs ++ (k, v) ∷ ys)
      → lookup k xs ≡ none
  unfolding lookup
  middle_fresh [] k v ys h = refl
  middle_fresh ((j, w) ∷ xs) k v ys h = elim (text_eq-cases j k) [
    | inl (e, same) ↦ cc (lookup_head k v ys, (lookup-append-none j xs ((k, v) ∷ ys) h.0).1)
    | inr (e, other) ↦ rw e (middle_fresh xs k v ys h.1)
  ]

  -- Without one of its entries it is still distinct.
  pub drop-IsDistinct :
      (xs : Dict V) (k : Text) (v : V) (ys : Dict V)
      → IsDistinct (xs ++ (k, v) ∷ ys)
      → IsDistinct (xs ++ ys)
  unfolding lookup
  drop-IsDistinct [] k v ys h = h.1
  drop-IsDistinct ((j, w) ∷ xs) k v ys h =
      let (before, behind) = lookup-append-none j xs ((k, v) ∷ ys) h.0 in
      (
        none-lookup-append j xs ys before (lookup_tail j k v ys behind),
        drop-IsDistinct xs k v ys h.1,
      )

-- A property of every value of a dictionary.
module _ {ℓ κ} {V : Type ℓ} (P : V → Type κ) where
  abbrev pub AllValues : Dict V → Type κ
  AllValues [] = Unit
  AllValues ((k, v) ∷ d) = P v × AllValues d

  pub insert-AllValues :
      (k : Text) (v : V) (d : Dict V) → P v → AllValues d → AllValues (insert k v d)
  unfolding insert
  insert-AllValues k v [] p h = (p, tt)
  insert-AllValues k v ((j, w) ∷ d) p h = elim (text_eq-cases j k) [
    | inl (e, same) ↦ rw e (p, h.1)
    | inr (e, other) ↦ rw e (h.0, insert-AllValues k v d p h.1)
  ]

  pub AllValues-lookup : (k : Text) (v : V) (d : Dict V) → AllValues d → lookup k d ≡ some v → P v
  unfolding lookup
  AllValues-lookup k v [] h e = cc
  AllValues-lookup k v ((j, w) ∷ d) h e = elim (text_eq-cases j k) [
    | inl (here, same) ↦ let found : w ≡ v = ground arith in subst P found h.0
    | inr (there, other) ↦ AllValues-lookup k v d h.1 (ground arith)
  ]
