-- ===== src/Base/Real.antt =====
-- A `double` in computations: a type with the operations that the code applies to it.
use mathlib.Core.Bool.{Bool}
use camannex.Base.Int.{ℤ}
use Prim.Native.Nat.{ℕ}

pub record Real : Type 1 where
  pub R : Type 0
  pub add : R → R → R
  pub sub : R → R → R
  pub mul : R → R → R
  pub div : R → R → R
  pub neg : R → R
  -- a conversion from an integer, and one to an integer, towards zero
  pub of_int : ℤ → R
  pub trunc : R → ℤ
  -- `literal m k` is m divided by 10 to the k
  pub literal : ℕ → ℕ → R
  -- `<=`, `<` and `==`
  pub leb : R → R → Bool
  pub ltb : R → R → Bool
  pub eqb : R → R → Bool

-- The functions of <math.h>.
pub record Libm (R : Type 0) : Type 0 where
  pub sin : R → R
  pub cos : R → R
  pub acos : R → R
  pub atan : R → R
  pub atan2 : R → R → R
  pub sqrt : R → R
  pub exp : R → R
  pub log : R → R
  pub log10 : R → R
  pub pow : R → R → R
