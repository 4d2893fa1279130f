-- ===== src/Numeric/Convolve/Tests.antt =====
-- Runs of the convolution, with whole numbers for floating point and a weight of one everywhere.
use camannex.Base.{
  ℕ, get_or-replicate, ◌+◌, ◌*◌, ◌≡◌, refl, List, [], ◌∷◌, Bool, some, replicate, if◌then◌else◌,
}
use camannex.Base.Int.{ℤ, pos, pos_part}
use camannex.Base.Real.{Libm}
use camannex.Ntp.Tests.{whole}
use camannex.Numeric.Convolve.{GaussStd, new_std_kernel}
use camannex.Numeric.Convolve.Sizes.{IsSquare, new_std_kernel-IsSquare}
use camannex.Numeric.Convolve.Window.{
  convolve, convolve_row, convolve_rows, fits_window, total, convolve-total,
}

abbrev pub flat : Libm ℤ
flat = record {
  sin = λ a. a;
  cos = λ a. a;
  acos = λ a. a;
  atan = λ a. a;
  atan2 = λ a b. a;
  sqrt = λ a. a;
  exp = λ a. pos 1;
  log = λ a. a;
  log10 = λ a. a;
  pow = λ a b. a;
}

abbrev ones : List ℤ
ones = replicate 9 (pos 1)

abbrev image : List ℕ
image = 1 ∷ 2 ∷ 3 ∷ 4 ∷ 5 ∷ 6 ∷ 7 ∷ 8 ∷ 9 ∷ 10 ∷ 11 ∷ 12 ∷ []

-- The sum of the nine elements about row 1 and column 2 of an image of four columns and three rows.
inner : convolve whole {D = ℕ} (λ n. pos n) pos_part 3 3 ones image 4 3 (pos 2) (pos 1) ≡ some 63
unfolding convolve convolve_rows convolve_row
inner = refl

convolve-total_example :
    convolve whole {D = ℕ} (λ n. pos n) pos_part 3 3 ones image 4 3 (pos 2) (pos 1)
    ≡ some (
        pos_part (
          if fits_window whole {D = ℕ} (λ n. pos n) pos_part 3 3 4 3 (pos 2) (pos 1)
          then total whole {D = ℕ} (λ n. pos n) pos_part image ones 4 3 1 0 0 3 3 0 (pos 0)
          else pos 0))
convolve-total_example =
    convolve-total whole {D = ℕ} (λ n. pos n) pos_part 3 3 ones image 4 3 (pos 2) (pos 1) 0 refl
      refl refl refl

-- A kernel of three rows and columns, renewed with five.
abbrev third : GaussStd whole flat
third = record { width = 3; sigma = pos 1; square = replicate 9 (pos 0) }

third-IsSquare : IsSquare whole flat (pos 7) third
third-IsSquare = record {
  odd = refl;
  made = record { whole = refl; cells = λ i j a b. get_or-replicate 9 (i * 3 + j) (pos 0) };
}

new_std_kernel-IsSquare_example :
    (g' : GaussStd whole flat) × (b : Bool) × (new_std_kernel whole flat
        (pos 7)
        (pos 5)
        (pos 2)
        third
      ≡ some (g', b))
    × IsSquare whole flat (pos 7) g'
new_std_kernel-IsSquare_example =
    new_std_kernel-IsSquare whole flat (pos 7) (pos 5) (pos 2) third third-IsSquare
