-- ===== src/Operator.antt =====
-- The operator's binary, rust/operator-binary/src: what its modules share of Rust's library.
pub mod Delayed
pub mod Pod
pub mod Tree
pub mod Objects
pub mod StatefulSet
pub mod Webhook
use commons_operator.Prelude.{Bool, true, false, not, Option, none, some}

-- `Result<A, E>` and `Poll<A>`.
pub data Outcome {ℓ} (A E : Type ℓ) : Type ℓ where
  ok : A → Outcome A E
  err : E → Outcome A E

pub data Poll {ℓ} (A : Type ℓ) : Type ℓ where
  pending : Poll A
  ready : A → Poll A

abbrev pub is_some {ℓ} : {A : Type ℓ} → Option A → Bool
is_some none = false
is_some (some a) = true
