-- ===== src/Numeric/Fit.antt =====
-- GaussFit2D of src/AMath.cpp.
pub mod Sums
pub mod Tests
use camannex.Base.{
  ℕ, zero, suc, ◌+◌, ◌*◌, ◌≡◌, refl, List, [], ◌∷◌, Bool, true, false, Option, none, some,
  if◌then◌else◌, ◌>>=◌, ◌||◌, get_elem?, replicate,
}
use camannex.Base.Int.{ℤ, pos}
use camannex.Base.Real.{Real, Libm}
use camannex.Numeric.Loop.{for_from}
use camannex.Numeric.Matrix.Invert.{ls_linear_solve}

-- `*p += *q` for the elements of two arrays, in order.
unfoldable pub add_to : (real : Real) → List real.R → List real.R → List real.R
add_to real [] ws = []
add_to real (v ∷ vs) [] = v ∷ vs
add_to real (v ∷ vs) (w ∷ ws) = real.add v w ∷ add_to real vs ws

module _ (real : Real) (libm : Libm real.R) where
  open real use {R, add, sub, mul, div, neg, of_int, literal, leb as le}

  -- What a point adds to the five elements of Q.
  unfoldable pub to_q : (x y z : R) → List R
  to_q x y z =
      let zx = mul z x in
      let zy = mul z y in
      let zx2 = mul zx x in
      let zy2 = mul zy y in
      let zlnz = mul z (libm.log z) in
      mul zlnz z ∷ mul zlnz zx ∷ mul zlnz zy ∷ mul zlnz zx2 ∷ mul zlnz zy2 ∷ []

  -- What a point adds to the 25 elements of B.
  unfoldable pub to_b : (x y z : R) → List R
  to_b x y z =
      let zx = mul z x in
      let zy = mul z y in
      let zx2 = mul zx x in
      let zy2 = mul zy y in
      mul z z
      ∷ mul z zx
      ∷ mul z zy
      ∷ mul z zx2
      ∷ mul z zy2
      ∷ mul zx z
      ∷ mul zx zx
      ∷ mul zx zy
      ∷ mul zx zx2
      ∷ mul zx zy2
      ∷ mul zy z
      ∷ mul zy zx
      ∷ mul zy zy
      ∷ mul zy zx2
      ∷ mul zy zy2
      ∷ mul zx2 z
      ∷ mul zx2 zx
      ∷ mul zx2 zy
      ∷ mul zx2 zx2
      ∷ mul zx2 zy2
      ∷ mul zy2 z
      ∷ mul zy2 zx
      ∷ mul zy2 zy
      ∷ mul zy2 zx2
      ∷ mul zy2 zy2
      ∷ []

  pub record Equations : Type 0 where
    pub q : List R
    pub b : List R

  -- One round of the loop; a point whose height is not above 1E-10 is left out.
  unfoldable pub add_point : (xs ys zs : List R) → ℕ → Equations → Option Equations
  add_point xs ys zs i s = do
    x ← get_elem? xs i
    y ← get_elem? ys i
    z ← get_elem? zs i
    some (
        if le z (literal 1 10)
        then s
        else record { q = add_to real s.q (to_q x y z); b = add_to real s.b (to_b x y z) })

  unfoldable pub equations : ℕ → (xs ys zs : List R) → Option Equations
  equations n xs ys zs =
      let begin : Equations = record {
        q = replicate 5 (of_int (pos 0));
        b = replicate 25 (of_int (pos 0));
      } in
      for_from n 0 (add_point xs ys zs) begin

  -- The height, the deviations and the centre.
  pub record Surface : Type 0 where
    pub a : R
    pub sigmax : R
    pub sigmay : R
    pub x0 : R
    pub y0 : R

  abbrev quarter : R → R → R
  quarter p q = div (div (mul p p) q) (of_int (pos 4))

  unfoldable pub surface : List R → Option (Option Surface)
  surface c = do
    c0 ← get_elem? c 0
    c1 ← get_elem? c 1
    c2 ← get_elem? c 2
    c3 ← get_elem? c 3
    c4 ← get_elem? c 4
    let half = neg (literal 5 1)
    let flat = le (neg (literal 1 10)) c3 || le (neg (literal 1 10)) c4
    some (
        if flat
        then none
        else some (record {
          a = libm.exp (sub (sub c0 (quarter c1 c3)) (quarter c2 c4));
          sigmax = libm.sqrt (div half c3);
          sigmay = libm.sqrt (div half c4);
          x0 = div (mul half c1) c3;
          y0 = div (mul half c2) c4;
        }))

  -- GaussFit2D: the surface, or inner `none` where it returns false. New memory holds `junk`.
  unfoldable pub gauss_fit2d : R → ℕ → (xs ys zs : List R) → Option (Option Surface)
  gauss_fit2d junk n xs ys zs = do
    s ← equations n xs ys zs
    c ← ls_linear_solve real junk 5 s.q s.b (replicate 5 junk)
    elim c [ none ↦ some none | some v ↦ surface v ]
