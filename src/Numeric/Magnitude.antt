-- ===== src/Numeric/Magnitude.antt =====
-- The conversions between magnitudes, light and solid angles of src/AMath.cpp.
use camannex.Base.Int.{pos}
use camannex.Base.Real.{Real, Libm}

module _ (real : Real) (libm : Libm real.R) where
  open real use {R, sub, mul, div, neg, of_int, literal}

  -- R2S of src/ADefine.h
  abbrev r2s : R
  r2s = literal 1375098708313975701043156 20

  unfoldable pub sr2arcsec : R → R
  sr2arcsec sr = mul (mul sr r2s) r2s

  unfoldable pub arcsec2sr : R → R
  arcsec2sr sas = div (div sas r2s) r2s

  unfoldable pub mag2watt : R → R
  mag2watt mag = mul (literal 178 10) (libm.pow (of_int (pos 10)) (mul (neg (literal 4 1)) mag))

  unfoldable pub watt2mag : R → R
  watt2mag watt =
      mul (neg (literal 25 1))
        (libm.log10 (div (mul (of_int (pos 100000000)) watt) (literal 178 2)))

  unfoldable pub candela2watt : R → R
  candela2watt cd = div (mul (of_int (pos 10000)) cd) (of_int (pos 683))

  unfoldable pub watt2candela : R → R
  watt2candela watt = div (mul watt (of_int (pos 683))) (of_int (pos 10000))

  -- The constant of Planck, in joule seconds, and the frequency of a wavelength in nanometres.
  abbrev planck : R
  planck = mul (literal 6626176 6) (literal 1 34)

  abbrev frequency : R → R
  frequency wl =
      let c = mul (of_int (pos 3)) (of_int (pos 100000000)) in
      mul (div c wl) (of_int (pos 1000000000))

  unfoldable pub mag2photo : (mag wl : R) → R
  mag2photo mag wl = div (div (mag2watt mag) planck) (frequency wl)

  unfoldable pub photo2mag : (photo wl : R) → R
  photo2mag photo wl = watt2mag (mul (mul photo planck) (frequency wl))
