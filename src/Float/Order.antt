-- ===== src/Float/Order.antt =====
-- What `<` says of two floats that are not NaN.
use commons_operator.Prelude.{◌≡◌, true, false, List, [], ◌∷◌, arith, All}
use commons_operator.Float.{Float, IsOrdered, ◌≼◌}

pub All-map {ℓ κ} :
    {A : Type ℓ} {P Q : A → Type κ} (f : (a : A) → P a → Q a) (xs : List A) → All P xs → All Q xs
All-map f [] h = tt
All-map f (x ∷ xs) h = (f x h.0, All-map f xs h.1)

module _ {F : Type 0} ⦃d : Float F⦄ (laws : IsOrdered F) where
  open laws use {lt-eq-not-le, le_total}

  pub lt_le : (x y : F) → x ≼ x → y ≼ y → d.lt x y ≡ true → x ≼ y
  lt_le x y hx hy e = ground (arith, lt-eq-not-le x y hx hy, le_total x y hx hy)

  pub not-lt-le : (x y : F) → x ≼ x → y ≼ y → d.lt x y ≡ false → y ≼ x
  not-lt-le x y hx hy e = ground (arith, lt-eq-not-le x y hx hy)
