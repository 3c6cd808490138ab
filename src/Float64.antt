-- ===== src/Float64.antt =====
-- Go's float64, of which the model assumes no law: a type with the operations that the program uses.
use open_peacock.Prelude.{Bool}
use open_peacock.Prelude.Int.{ℤ, pos, ◌≤ℤ◌, ◌<ℤ◌}

pub record Float64 : Type 1 where
  pub F : Type 0
  -- `float64(n)` and `int(x)`
  pub of_int : ℤ → F
  pub to_int : F → ℤ
  pub add : F → F → F
  pub sub : F → F → F
  pub mul : F → F → F
  pub div : F → F → F
  -- `x < y` and `x <= y`
  pub lt : F → F → Bool
  pub le : F → F → Bool

-- `math/rand.Rand`: a state that each draw replaces. `Intn(n)` panics unless n is positive, and then
-- draws from [0, n).
pub record Rand (F : Type 0) : Type 1 where
  pub State : Type 0
  pub intn : ℤ → State → ℤ × State
  pub intn-range : (n : ℤ) (s : State) → pos 1 ≤ℤ n → (pos 0 ≤ℤ (intn n s).0) × ((intn n s).0 <ℤ n)
  pub float64 : State → F × State
