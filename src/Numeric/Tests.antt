-- ===== src/Numeric/Tests.antt =====
-- Runs of the routines on arrays.
use camannex.Base.{ℕ, ◌+◌, ◌*◌, ◌≡◌, refl, List, [], ◌∷◌, arith, get_or, replicate}
use camannex.Base.Int.{ℤ, pos}
use camannex.Ntp.Tests.{whole}
use camannex.Numeric.Endian.{swap_endian, swap_endian-reverses}
use camannex.Numeric.Interpolation.{bisect, Brackets, bisect-Brackets}
use camannex.Numeric.Matrix.{mat_trans}
use camannex.Numeric.Matrix.Product.{
  mat_real_mult, item, row_by_column, mat_real_mult-row_by_column,
}

swapped_words :
    swap_endian (1 ∷ 2 ∷ 3 ∷ 4 ∷ 5 ∷ 6 ∷ 7 ∷ 8 ∷ 9 ∷ []) 2 4
    ≡ 4 ∷ 3 ∷ 2 ∷ 1 ∷ 8 ∷ 7 ∷ 6 ∷ 5 ∷ 9 ∷ []
unfolding swap_endian
swapped_words = refl

transposed :
    mat_trans {A = ℕ} 0 2 3 (1 ∷ 2 ∷ 3 ∷ 4 ∷ 5 ∷ 6 ∷ []) (replicate 6 0)
    ≡ 1 ∷ 4 ∷ 2 ∷ 5 ∷ 3 ∷ 6 ∷ []
unfolding mat_trans
transposed = refl

product :
    mat_real_mult whole 2 2 2
      (pos 1 ∷ pos 2 ∷ pos 3 ∷ pos 4 ∷ [])
      (pos 5 ∷ pos 6 ∷ pos 7 ∷ pos 8 ∷ [])
      (replicate 4 (pos 0))
    ≡ pos 19 ∷ pos 22 ∷ pos 43 ∷ pos 50 ∷ []
unfolding mat_real_mult
product = refl

swap_endian-reverses_example :
    get_or (swap_endian (1 ∷ 2 ∷ 3 ∷ 4 ∷ 5 ∷ 6 ∷ 7 ∷ 8 ∷ []) 2 4) (1 * 4 + 0) 0 ≡ 8
swap_endian-reverses_example =
    swap_endian-reverses (1 ∷ 2 ∷ 3 ∷ 4 ∷ 5 ∷ 6 ∷ 7 ∷ 8 ∷ []) 2 4 1 0 refl (omega arith)
      (omega arith) (omega arith)

abbrev table : List ℤ
table = pos 1 ∷ pos 3 ∷ pos 4 ∷ pos 8 ∷ []

bisect-Brackets_example :
    Brackets whole table (pos 5) 3 (bisect whole 4 table (pos 5) (0, 3))
    × ((bisect whole 4 table (pos 5) (0, 3)).1 ≡ (bisect whole 4 table (pos 5) (0, 3)).0 + 1)
bisect-Brackets_example = bisect-Brackets whole 4 table (pos 5) (omega arith)

abbrev five : ℕ
five = 5

mat_real_mult-row_by_column_example :
    item whole (mat_real_mult whole 2 2 2 table table (replicate 4 (pos 0))) (1 + 1 * 2)
    ≡ row_by_column whole 2 2 (1 * 2) 1 table table (pos 0)
mat_real_mult-row_by_column_example =
    mat_real_mult-row_by_column whole 2 2 2 1 1 table table (replicate 4 (pos 0)) (omega arith)
      (omega arith) (omega arith)
