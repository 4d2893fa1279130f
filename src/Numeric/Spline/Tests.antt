-- ===== src/Numeric/Spline/Tests.antt =====
-- Runs of the splines, with whole numbers for floating point.
use camannex.Base.{◌≡◌, refl, List, [], ◌∷◌, true, false, some, length, arith}
use camannex.Base.Int.{ℤ, pos, leb_ℤ, ltb_ℤ}
use camannex.Ntp.Tests.{whole}
use camannex.Numeric.Convolve.Tests.{flat}
use camannex.Numeric.Loop.{Returns}
use camannex.Numeric.Spline.Cubic.{choose, interval, cubic_spline}
use camannex.Numeric.Spline.Cubic.Interval.{IsOrdered, Holds, choose-Holds, cubic_spline_within}

abbrev places : List ℤ
places = pos 1 ∷ pos 3 ∷ pos 4 ∷ pos 8 ∷ []

abbrev heights : List ℤ
heights = pos 5 ∷ pos 2 ∷ pos 2 ∷ pos 9 ∷ []

total_whole : (a b : ℤ) → leb_ℤ a b ≡ false → leb_ℤ b a ≡ true
total_whole a b h = ground arith

not_lt_whole : (a b : ℤ) → ltb_ℤ a b ≡ false → leb_ℤ b a ≡ true
not_lt_whole a b h = ground arith

ordered : IsOrdered whole
ordered = record { total = total_whole; not_lt = not_lt_whole }

third_interval : choose whole 4 places (pos 5) ≡ some 2
unfolding choose interval
third_interval = refl

cubic_spline_within_example :
    Returns
      (λ yo. length yo ≡ 3)
      (cubic_spline whole flat (pos 0) 4 places heights (pos 0 ∷ pos 5 ∷ pos 9 ∷ []))
cubic_spline_within_example =
    cubic_spline_within ordered 4 places (omega arith) refl heights refl flat (pos 0)
      (pos 0 ∷ pos 5 ∷ pos 9 ∷ [])

choose-Holds_example :
    Returns (Holds ordered 4 places (omega arith) refl (pos 5)) (choose whole 4 places (pos 5))
choose-Holds_example = choose-Holds ordered 4 places (omega arith) refl (pos 5)
