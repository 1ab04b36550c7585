-- ===== src/Common/Queue.antt =====
-- The specification of a bounded first-in first-out queue, which the ring buffers implement.
use Prim.Native.Nat.{ℕ, ◌≤◌}
use mathlib.Core.Bool.{Bool, true, false}
use mathlib.Core.List.{List, [], ◌∷◌, ◌++◌}
use mathlib.Core.Option.{Option, none, some}
use native.Mathlib.Omega.{arith}
use rudra_org.Common.Tests.{ltb, if◌then◌else◌}
use rudra_org.Common.Lists.{length, length-append}

-- What a client asks of a queue, and what it is told.
pub data Op {ℓ} (A : Type ℓ) : Type ℓ where
  push : A → Op A
  pop : Op A

pub data Reply {ℓ} (A : Type ℓ) : Type ℓ where
  pushed : Bool → Reply A
  popped : Option A → Reply A

module _ {ℓ} {A : Type ℓ} (limit : ℕ) where
  -- The oldest item stands first. A push into a full queue is refused.
  unfoldable pub step : List A → Op A → Reply A × List A
  step q (push x) = if ltb (length q) limit then (pushed true, q ++ x ∷ []) else (pushed false, q)
  step [] pop = (popped none, [])
  step (x ∷ q) pop = (popped (some x), q)

  unfoldable pub run : List A → List (Op A) → List (Reply A)
  run q [] = []
  run q (op ∷ ops) = let (reply, q') = step q op in reply ∷ run q' ops

  pub length-step : (q : List A) (op : Op A) → length q ≤ limit → length (step q op).1 ≤ limit
  unfolding step
  length-step q (push x) h = ground (arith, length-append q (x ∷ []))
  length-step [] pop h = omega arith
  length-step (x ∷ q) pop h = omega arith
