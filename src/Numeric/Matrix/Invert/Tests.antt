-- ===== src/Numeric/Matrix/Invert/Tests.antt =====
-- Runs of MatInvert, with whole numbers for floating point; it divides by one only.
use camannex.Base.{◌≡◌, refl, List, [], ◌∷◌, some, arith}
use camannex.Base.Int.{ℤ, pos, negsuc}
use camannex.Base.Real.{Real}
use camannex.Ntp.Tests.{whole}
use camannex.Numeric.Loop.{Returns, for_from, store}
use camannex.Numeric.Matrix.Invert.{
  mat_invert, factor_all, factor, pivot, take_pivot, exchange, scale, reduce_column, load_column,
  reduce, along, save_column, scale_upper, invert_upper, invert_lower, join, undo,
}
use camannex.Numeric.Matrix.Invert.Total.{IsInverted, mat_invert_within}

abbrev units : Real
units = record whole { div = λ a b. a }

-- Its first column makes the code exchange the rows.
abbrev sheared : List ℤ
sheared = pos 0 ∷ pos 1 ∷ pos 1 ∷ pos 3 ∷ []

sheared_inverted :
    mat_invert units 2 (pos 7) sheared ≡ some (some (negsuc 2 ∷ pos 1 ∷ pos 1 ∷ pos 0 ∷ []))
unfolding mat_invert factor_all factor pivot take_pivot exchange scale reduce_column load_column
    reduce along save_column scale_upper invert_upper invert_lower join undo for_from store
sheared_inverted = refl

mat_invert_within_example : Returns (IsInverted units 2) (mat_invert units 2 (pos 7) sheared)
mat_invert_within_example = mat_invert_within units 2 (pos 7) sheared (omega arith) refl
