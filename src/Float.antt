-- ===== src/Float.antt =====
-- The floating-point numbers of Python as an interface: what scripts/auto-retry-tests.py does with
-- a `float`, with `statistics.mean` and with `f"{x:.1f}"`.
pub mod Order
use commons_operator.Prelude.{ℕ, ◌≡◌, ◌⊎◌, Bool, true, not, List, Text}

pub record Float (F : Type 0) : Type 0 where
  -- The literal of a whole number, and `int / int`.
  pub of_ℕ : ℕ → F
  pub ratio : ℕ → ℕ → F
  pub le : F → F → Bool
  pub lt : F → F → Bool
  pub add : F → F → F
  pub mul : F → F → F
  pub div : F → F → F
  -- `statistics.mean(xs)`, and `f"{x:.1f}"`.
  pub mean : List F → F
  pub fixed : F → Text

infix 4 ◌≼◌
abbrev pub ◌≼◌ : {F : Type 0} ⦃d : Float F⦄ → F → F → Type 0
◌≼◌ ⦃d⦄ x y = d.le x y ≡ true

-- NaN is the value that is not `<=` itself; the infinities are ordered as numbers are.
pub record IsOrdered (F : Type 0) ⦃d : Float F⦄ : Type 0 where
  pub of_ℕ_refl : (n : ℕ) → d.of_ℕ n ≼ d.of_ℕ n
  pub le_trans : (x y z : F) → x ≼ y → y ≼ z → x ≼ z
  pub lt-eq-not-le : (x y : F) → x ≼ x → y ≼ y → d.lt x y ≡ not (d.le y x)
  pub le_total : (x y : F) → x ≼ x → y ≼ y → (x ≼ y) ⊎ (y ≼ x)
