-- ===== src/Numeric/Normal.antt =====
-- erf, reverse_erf, CNDF and RCNDF of src/AMath.cpp, and Correlation.
use camannex.Base.{
  ℕ, zero, suc, ◌≡◌, refl, List, true, Option, none, some, if◌then◌else◌, ◌>>=◌, get_elem?,
}
use camannex.Base.Int.{pos, sub_ℕ}
use camannex.Base.Real.{Real, Libm}
use camannex.Numeric.Interpolation.{fabs}
use camannex.Numeric.Loop.{for_from}

module _ (real : Real) (libm : Libm real.R) where
  open real use {R, add, sub, mul, div, neg, of_int, literal, ltb as lt, leb as le}

  abbrev number : ℕ → R
  number n = of_int (pos n)

  -- The polynomial of erf, by Horner's rule.
  unfoldable pub polynomial : R → R
  polynomial t =
      let a9 = literal 17087277 8 in
      let a8 = add (neg (literal 82215223 8)) (mul t a9) in
      let a7 = add (literal 148851587 8) (mul t a8) in
      let a6 = add (neg (literal 113520398 8)) (mul t a7) in
      let a5 = add (literal 27886807 8) (mul t a6) in
      let a4 = add (neg (literal 18628806 8)) (mul t a5) in
      let a3 = add (literal 9678418 8) (mul t a4) in
      let a2 = add (literal 37409196 8) (mul t a3) in add (literal 100002368 8) (mul t a2)

  unfoldable pub erf : R → R
  erf x =
      let z = fabs real x in
      let one = number 1 in
      let t = div one (add one (mul (literal 5 1) z)) in
      let exponent = add (sub (mul (neg z) z) (literal 126551223 8)) (mul t (polynomial t)) in
      let y = mul t (libm.exp exponent) in if le (number 0) x then sub one y else sub y one

  -- `while (fabs(z1 - z) > 1.2E-7)`, from the bounds and the middle on.
  unfoldable pub halve : ℕ → R → (lo hi me : R) → Option R
  halve zero z lo hi me = none
  halve (suc fuel) z lo hi me =
      let z1 = erf me in
      let lo' = if lt z1 z then me else lo in
      let hi' = if lt z1 z then hi else me in
      let rest = halve fuel z lo' hi' (mul (add lo' hi') (literal 5 1)) in
      if lt (literal 12 8) (fabs real (sub z1 z)) then rest else some me

  -- reverse_erf
  unfoldable pub reverse_erf : ℕ → R → Option R
  reverse_erf fuel z =
      let lo = if le (number 0) z then number 0 else neg (number 4) in
      let hi = if le (number 0) z then number 4 else number 0 in
      halve fuel z lo hi (mul (add lo hi) (literal 5 1))

  unfoldable pub cndf : (x mu sigma : R) → R
  cndf x mu sigma =
      let z = div (div (sub x mu) (libm.sqrt (number 2))) sigma in
      mul (literal 5 1) (add (number 1) (erf z))

  unfoldable pub rcndf : ℕ → (p mu sigma : R) → Option R
  rcndf fuel p mu sigma = reverse_erf fuel (sub (mul p (number 2)) (number 1)) >>= λ z.
      some (add (mul (mul z (libm.sqrt (number 2))) sigma) mu)

  halve-none :
      (z : R)
      → ((x : R) → lt (literal 12 8) (fabs real (sub (erf x) z)) ≡ true)
      → (fuel : ℕ) (lo hi me : R) → halve fuel z lo hi me ≡ none
  unfolding halve
  halve-none z far zero lo hi me = refl
  halve-none z far (suc fuel) lo hi me =
      let lo' = if lt (erf me) z then me else lo in
      let hi' = if lt (erf me) z then hi else me in
      rw (far me) (halve-none z far fuel lo' hi' (mul (add lo' hi') (literal 5 1)))

  -- Where every value of erf is farther than 1.2E-7 from what the probability stands for, RCNDF does
  -- not return, whatever the number of rounds.
  pub rcndf-none :
      (p mu sigma : R)
      → ((x : R)
          → lt (literal 12 8) (fabs real (sub (erf x) (sub (mul p (number 2)) (number 1)))) ≡ true)
      → (fuel : ℕ) → rcndf fuel p mu sigma ≡ none
  unfolding rcndf reverse_erf
  rcndf-none p mu sigma far fuel =
      let z = sub (mul p (number 2)) (number 1) in
      let lo = if le (number 0) z then number 0 else neg (number 4) in
      let hi = if le (number 0) z then number 4 else number 0 in
      rw (halve-none z far fuel lo hi (mul (add lo hi) (literal 5 1))) refl

  -- The five sums of Correlation
  pub record Sums : Type 0 where
    pub sumx : R
    pub sumy : R
    pub sqx : R
    pub sqy : R
    pub sumxy : R

  unfoldable pub add_point : (xs ys : List R) → ℕ → Sums → Option Sums
  add_point xs ys i s = do
    x ← get_elem? xs i
    y ← get_elem? ys i
    some (record {
      sumx = add s.sumx x;
      sumy = add s.sumy y;
      sumxy = add s.sumxy (mul x y);
      sqx = add s.sqx (mul x x);
      sqy = add s.sqy (mul y y);
    })

  unfoldable pub correlation : ℕ → (xs ys : List R) → Option R
  correlation n xs ys = do
    let none_of = number 0
    s ←
        for_from n 0 (add_point xs ys)
          (record { sumx = none_of; sumy = none_of; sqx = none_of; sqy = none_of; sumxy = none_of })
    let count = number n
    let meanx = div s.sumx count
    let meany = div s.sumy count
    let free = of_int (sub_ℕ n 1)
    let rmsx = libm.sqrt (div (sub s.sqx (mul s.sumx meanx)) free)
    let rmsy = libm.sqrt (div (sub s.sqy (mul s.sumy meany)) free)
    some (div (div (sub s.sumxy (mul (mul count meanx) meany)) rmsx) rmsy)
