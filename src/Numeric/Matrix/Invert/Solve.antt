-- ===== src/Numeric/Matrix/Invert/Solve.antt =====
-- What LSLinearSolve returns.
use camannex.Base.{ℕ, ◌+◌, ◌*◌, ◌<◌, ◌≤◌, ◌≡◌, refl, subst, List, Option, none, some, length, arith}
use camannex.Base.Int.{pos}
use camannex.Base.Real.{Real}
use camannex.Numeric.Loop.{Returns}
use camannex.Numeric.Matrix.Product.{
  item, mat_real_mult, row_by_column, mat_real_mult-row_by_column,
}
use camannex.Numeric.Matrix.Invert.{mat_invert, ls_linear_solve}
use camannex.Numeric.Matrix.Invert.Total.{mat_invert_within}

module _ (real : Real) where
  open real use {R, of_int}

  -- Element `j` of the product of the inverse and the right side, if there is an inverse.
  abbrev pub SolvesAt : (j m : ℕ) → (junk : R) → (y a : List R) → Option (List R) → Type 0
  SolvesAt j m junk y a none = mat_invert real m junk a ≡ some none
  SolvesAt j m junk y a (some x) =
      (b : List R) × (mat_invert real m junk a ≡ some (some b))
      × (item real x j ≡ row_by_column real m 1 (j * m) 0 b y (of_int (pos 0)))

  element_lem :
      (m j : ℕ) (y x b : List R)
      → m ≤ length x
      → j < m
      → item real (mat_real_mult real m m 1 b y x) j
        ≡ row_by_column real m 1 (j * m) 0 b y (of_int (pos 0))
  element_lem m j y x b e g =
      let k : 0 + j * 1 ≡ j = omega arith in
      subst
        (λ o.
          item real (mat_real_mult real m m 1 b y x) o
          ≡ row_by_column real m 1 (j * m) 0 b y (of_int (pos 0)))
        k (mat_real_mult-row_by_column real m m 1 0 j b y x (omega arith) (omega arith) g)

  -- For a matrix of m rows and columns, m at least 1, and memory for m elements, LSLinearSolve returns:
  -- false exactly where MatInvert reports a singular matrix, and else every element j of the solution is
  -- the sum, from left to right, of the products of row j of the inverse that MatInvert leaves with the
  -- right side.
  pub ls_linear_solve_lem :
      (junk : R) (m j : ℕ) (y a x : List R)
      → 0 < m
      → length a ≡ m * m
      → m ≤ length x
      → j < m
      → Returns (SolvesAt j m junk y a) (ls_linear_solve real junk m y a x)
  unfolding ls_linear_solve
  ls_linear_solve_lem junk m j y a x h w e g =
      let r = mat_invert_within real m junk a h w in solved r.0 r.1
    where
      solved :
          (o : Option (List R))
          → mat_invert real m junk a ≡ some o
          → Returns (SolvesAt j m junk y a) (ls_linear_solve real junk m y a x)
      solved none q = rw q (none, refl, q)
      solved (some b) q =
          rw q (some (mat_real_mult real m m 1 b y x), refl, (b, q, element_lem m j y x b e g))
