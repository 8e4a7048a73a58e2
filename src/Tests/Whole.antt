-- ===== src/Tests/Whole.antt =====
-- Whole numbers in the place of `float`: an instance of the interface, and its laws. A mean is
-- rounded down.
use commons_operator.Prelude.{
  ℕ, ◌+◌, ◌*◌, ◌/◌, ◌≤◌, ◌≡◌, true, List, [], ◌∷◌, arith, length, leb, ltb, leb→le, decimal,
}
use commons_operator.Float.{Float, IsOrdered}

abbrev sum : List ℕ → ℕ
sum [] = 0
sum (x ∷ xs) = x + sum xs

abbrev floor_mean : List ℕ → ℕ
floor_mean xs = sum xs / length xs

instance abbrev pub whole : Float ℕ
whole = record {
  of_ℕ = λ n. n;
  ratio = λ m n. m / n;
  le = leb;
  lt = ltb;
  add = λ m n. m + n;
  mul = λ m n. m * n;
  div = λ m n. m / n;
  mean = floor_mean;
  fixed = decimal;
}

leb_of_le : (m n : ℕ) → m ≤ n → leb m n ≡ true
leb_of_le m n h = ground arith

le_of_leb : (m n : ℕ) → leb m n ≡ true → m ≤ n
le_of_leb m n h = leb→le m n h

pub whole-IsOrdered : IsOrdered ℕ
whole-IsOrdered = record {
  of_ℕ_refl = λ n. leb_of_le n n (omega arith);
  le_trans = λ x y z h k. ground arith;
  lt-eq-not-le = λ x y h k. ground arith;
  le_total = λ x y h k. ground arith;
}
