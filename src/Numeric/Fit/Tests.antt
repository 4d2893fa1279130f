-- ===== src/Numeric/Fit/Tests.antt =====
-- Runs of GaussFit2D, with whole numbers for floating point.
use camannex.Base.{◌+◌, ◌*◌, ◌≡◌, List, [], ◌∷◌, get_or, arith}
use camannex.Base.Int.{ℤ, pos}
use camannex.Ntp.Tests.{whole}
use camannex.Numeric.Convolve.Tests.{flat}
use camannex.Numeric.Loop.{Returns}
use camannex.Numeric.Fit.{equations}
use camannex.Numeric.Fit.Sums.{term, total, equations_lem}

abbrev xs : List ℤ
xs = pos 1 ∷ pos 2 ∷ []

abbrev heights : List ℤ
heights = pos 3 ∷ pos 5 ∷ []

equations_lem_example :
    Returns
      (λ s.
        (get_or s.b (1 * 5 + 2) (pos 0)
          ≡ total whole flat
              (λ x y z. whole.mul (term whole flat 1 x y z) (term whole flat 2 x y z))
              2
              0
              xs
              xs
              heights
              (pos 0))
        × (get_or s.q 1 (pos 0)
            ≡ total whole flat
                (λ x y z. whole.mul (whole.mul z z) (term whole flat 1 x y z))
                2
                0
                xs
                xs
                heights
                (pos 0)))
      (equations whole flat 2 xs xs heights)
equations_lem_example =
    equations_lem whole flat xs xs heights 2 1 2 (omega arith) (omega arith) (omega arith)
      (omega arith) (omega arith)
