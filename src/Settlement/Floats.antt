-- ===== src/Settlement/Floats.antt =====
-- What the settlement code does with floats (app/services/settlement_service.py): the operations
-- are a parameter, and the only laws that the theorems use are about the amount 0. `Float` stands for
-- the values that the amounts and rates of numeric columns give, which are finite.
use beautypos.Prelude.{ℕ, ◌≡◌, Bool, List, []}
use beautypos.Prelude.Int.{ℤ, pos}

pub record Floats : Type 1 where
  pub Float : Type 0
  pub of_int : ℤ → Float
  -- the float that a decimal literal stands for: `decimal n k` is n / 10 ^ k
  pub decimal : ℕ → ℕ → Float
  pub add : Float → Float → Float
  -- `sum(xs)`, from the left or with a compensation, as the version of Python has it
  pub sum : List Float → Float
  pub sub : Float → Float → Float
  pub mul : Float → Float → Float
  pub div : Float → Float → Float
  pub lt : Float → Float → Bool
  pub le : Float → Float → Bool
  -- `round(x)` and `round(x, n)`
  pub round : Float → ℤ
  pub round_to : ℕ → Float → Float
  -- `int(x)`, towards zero
  pub int : Float → ℤ

-- Zero times a finite rate rounds to zero, the empty sum is zero, and so is zero as an integer.
pub record HasZero (fl : Floats) : Type 0 where
  pub round-mul_zero : (r : fl.Float) → fl.round (fl.mul (fl.of_int (pos 0)) r) ≡ pos 0
  pub sum-empty : fl.sum [] ≡ fl.of_int (pos 0)
  pub int-zero : fl.int (fl.of_int (pos 0)) ≡ pos 0
