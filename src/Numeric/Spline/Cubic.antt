-- ===== src/Numeric/Spline/Cubic.antt =====
-- CubicSpline and Bilinear of src/AMath.cpp. `none` is an access outside an array.
pub mod Interval
use camannex.Base.{
  ℕ, zero, suc, ◌+◌, ◌-◌, List, [], ◌∷◌, Bool, true, false, ◌&&◌, Option, none, some, ltb,
  if◌then◌else◌, ◌>>=◌, length, get_elem?, replicate,
}
use camannex.Base.Int.{ℤ, pos}
use camannex.Base.Real.{Real, Libm}
use camannex.Numeric.Loop.{for_from, store}

module _ (real : Real) where
  open real use {R, add, sub, mul, div, neg, of_int, ltb as lt, leb as le}

  abbrev number : ℕ → R
  number n = of_int (pos n)

  -- The arrays A, B, C and D
  pub record Bands : Type 0 where
    pub a : List R
    pub b : List R
    pub c : List R
    pub d : List R

  -- The first and the last equation
  unfoldable pub edges : ℕ → Bands → Option Bands
  edges n s = do
    a0 ← store s.a 0 (number 0)
    a ← store a0 (n - 1) (number 1)
    b0 ← store s.b 0 (number 1)
    b ← store b0 (n - 1) (neg (number 1))
    c0 ← store s.c 0 (neg (number 1))
    c ← store c0 (n - 1) (number 0)
    d0 ← store s.d 0 (number 0)
    d ← store d0 (n - 1) (number 0)
    some (record { a = a; b = b; c = c; d = d })

  -- The equation of the point `i`, which has one on either side.
  unfoldable pub coefficients : (xi yi : List R) → ℕ → Bands → Option Bands
  coefficients xi yi i s = do
    x ← get_elem? xi i
    xb ← get_elem? xi (i - 1)
    xa ← get_elem? xi (i + 1)
    y ← get_elem? yi i
    yb ← get_elem? yi (i - 1)
    ya ← get_elem? yi (i + 1)
    let t = sub x xb
    let p = sub xa x
    let ai = div t (number 6)
    let ci = div p (number 6)
    a ← store s.a i ai
    c ← store s.c i ci
    b ← store s.b i (mul (number 2) (add ai ci))
    d ← store s.d i (sub (div (sub ya y) p) (div (sub y yb) t))
    some (record { a = a; b = b; c = c; d = d })

  unfoldable pub eliminate : ℕ → Bands → Option Bands
  eliminate i s = do
    ai ← get_elem? s.a i
    bi ← get_elem? s.b i
    cb ← get_elem? s.c (i - 1)
    ci ← get_elem? s.c i
    di ← get_elem? s.d i
    db ← get_elem? s.d (i - 1)
    let t = sub bi (mul ai cb)
    c ← store s.c i (div ci t)
    d ← store s.d i (div (sub di (mul ai db)) t)
    some (record s { c = c; d = d })

  -- The round `i` of the loop back: it writes the place n - i - 2.
  unfoldable pub substitute : ℕ → ℕ → Bands → Option Bands
  substitute n i s = do
    let j = n - i - 2
    dj ← get_elem? s.d j
    cj ← get_elem? s.c j
    next ← get_elem? s.a (j + 1)
    a ← store s.a j (sub dj (mul cj next))
    some (record s { a = a })

  -- The coefficients, of at least one point. The new arrays hold `junk`.
  unfoldable pub solve : R → ℕ → (xi yi : List R) → Option (List R)
  solve junk n xi yi = do
    let fresh = replicate n junk
    s0 ← edges n (record { a = fresh; b = fresh; c = fresh; d = fresh })
    s1 ← for_from (n - 2) 1 (coefficients xi yi) s0
    s2 ← for_from (n - 1) 1 eliminate s1
    last ← get_elem? s2.d (n - 1)
    a ← store s2.a (n - 1) last
    s3 ← for_from (n - 1) 0 (substitute n) (record s2 { a = a })
    some s3.a

  -- `for(j = 0; j < L; ++j) if(XI[j] <= t && t <= XI[j + 1]) break`
  unfoldable pub interval : ℕ → ℕ → List R → R → Option ℕ
  interval zero j xi t = some j
  interval (suc n) j xi t =
      let later = interval n (j + 1) xi t in
      get_elem? xi j >>= λ a.
      get_elem? xi (j + 1) >>= λ b. if le a t && le t b then some j else later

  -- The interval in which CubicSpline interpolates. It is the last for a position behind all points.
  unfoldable pub choose : ℕ → List R → R → Option ℕ
  choose n xi t =
      let inner = interval (n - 1) 0 xi t in
      get_elem? xi 0 >>= λ first. get_elem? xi (n - 1) >>= λ last.
      if lt t first then some 0 else if lt last t then some (n - 2) else inner

  module _ (libm : Libm R) where
    -- The value at `t` in the interval `j`
    unfoldable pub value : (xi yi a : List R) → R → ℕ → Option R
    value xi yi a t j = do
      xj ← get_elem? xi j
      xk ← get_elem? xi (j + 1)
      yj ← get_elem? yi j
      yk ← get_elem? yi (j + 1)
      aj ← get_elem? a j
      ak ← get_elem? a (j + 1)
      let p = sub xk xj
      let cubes =
          add (mul aj (libm.pow (sub xk t) (number 3))) (mul ak (libm.pow (sub t xj) (number 3)))
      let left = mul (sub xk t) (sub (div yj p) (div (mul aj p) (number 6)))
      let right = mul (sub t xj) (sub (div yk p) (div (mul ak p) (number 6)))
      some (add (add (div (div cubes (number 6)) p) left) right)

    unfoldable pub values : ℕ → (xi yi a xo : List R) → Option (List R)
    values n xi yi a [] = some []
    values n xi yi a (t ∷ ts) = do
      j ← choose n xi t
      v ← value xi yi a t j
      vs ← values n xi yi a ts
      some (v ∷ vs)

    -- CubicSpline, for `n` points
    unfoldable pub cubic_spline : R → ℕ → (xi yi xo : List R) → Option (List R)
    cubic_spline junk n xi yi xo = do a ← solve junk n xi yi; values n xi yi a xo

  -- Bilinear, of two positions on each axis and four values.
  unfoldable pub bilinear : (xi yi zi : List R) → R → R → Option R
  bilinear xi yi zi x0 y0 = do
    z0 ← get_elem? zi 0
    z1 ← get_elem? zi 1
    z2 ← get_elem? zi 2
    z3 ← get_elem? zi 3
    xl ← get_elem? xi 0
    xr ← get_elem? xi 1
    yl ← get_elem? yi 0
    yr ← get_elem? yi 1
    let f1 = mul (mul z0 (sub xr x0)) (sub yr y0)
    let f2 = mul (mul z1 (sub x0 xl)) (sub yr y0)
    let f3 = mul (mul z2 (sub xr x0)) (sub y0 yl)
    let f4 = mul (mul z3 (sub x0 xl)) (sub y0 yl)
    some (div (div (add (add (add f1 f2) f3) f4) (sub xr xl)) (sub yr yl))
