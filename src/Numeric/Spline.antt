-- ===== src/Numeric/Spline.antt =====
-- spline, spline2 and splint2 of src/AMath.cpp. `none` is an access outside an array.
pub mod Bounds
pub mod Cubic
pub mod Tests
use camannex.Base.{
  ℕ, zero, suc, ◌+◌, ◌-◌, ◌*◌, ◌^◌, List, [], ◌∷◌, ◌++◌, Bool, true, false, Option, none, some, ltb,
  leb, if◌then◌else◌, ◌>>=◌, length, get_elem?, set, replicate, take, drop,
}
use camannex.Base.Int.{ℤ, pos}
use camannex.Base.Real.{Real}
use camannex.Numeric.Interpolation.{splint}
use camannex.Numeric.Loop.{for_from, store}

module _ (real : Real) where
  open real use {R, add, sub, mul, div, neg, of_int, literal, ltb as lt}

  abbrev whole_number : ℕ → R
  whole_number n = of_int (pos n)

  -- AMAX of src/ADefine.h, 1E30
  abbrev pub amax : R
  amax = literal (10 ^ 30) 0

  -- The arrays `c` and `u`
  pub record Work : Type 0 where
    pub c : List R
    pub u : List R

  -- `limit`
  abbrev limit : R
  limit = mul (literal 99 2) amax

  -- The first point, where its derivative is not given, and where it is.
  unfoldable pub free_begin : Work → Option Work
  free_begin w = do
    c ← store w.c 0 (whole_number 0)
    u ← store w.u 0 (whole_number 0)
    some (record { c = c; u = u })

  unfoldable pub given_begin : (x y : List R) → R → Work → Option Work
  given_begin x y c1 w = do
    c ← store w.c 0 (neg (literal 5 1))
    x1 ← get_elem? x 1
    x0 ← get_elem? x 0
    y1 ← get_elem? y 1
    y0 ← get_elem? y 0
    let rise = sub y1 y0
    let slope = mul (div (whole_number 3) (sub x1 x0)) rise
    u ← store w.u 0 (div slope (sub rise c1))
    some (record { c = c; u = u })

  unfoldable pub begin : (x y : List R) → R → Work → Option Work
  begin x y c1 w = if lt limit c1 then free_begin w else given_begin x y c1 w

  -- The body of the first loop, at the point `i`. It is not the first.
  unfoldable pub eliminate : (x y : List R) → ℕ → Work → Option Work
  eliminate x y i w = do
    xi ← get_elem? x i
    before ← get_elem? x (i - 1)
    after ← get_elem? x (i + 1)
    cb ← get_elem? w.c (i - 1)
    yi ← get_elem? y i
    yb ← get_elem? y (i - 1)
    ya ← get_elem? y (i + 1)
    ub ← get_elem? w.u (i - 1)
    let t1 = sub xi before
    let t2 = sub after before
    let sig = div t1 t2
    let p = add (mul sig cb) (whole_number 2)
    let bend = sub (div (sub ya yi) (sub after xi)) (div (sub yi yb) t1)
    c ← store w.c i (div (sub sig (whole_number 1)) p)
    u ← store w.u i (div (sub (div (mul (whole_number 6) bend) t2) (mul sig ub)) p)
    some (record { c = c; u = u })

  -- qn and un
  unfoldable pub end_values : ℕ → (x y : List R) → R → Option (R × R)
  end_values n x y cn = do
    xl ← get_elem? x (n - 1)
    xb ← get_elem? x (n - 2)
    yl ← get_elem? y (n - 1)
    yb ← get_elem? y (n - 2)
    let width = sub xl xb
    some (literal 5 1, mul (div (whole_number 3) width) (sub cn (div (sub yl yb) width)))

  -- The last point, and the loop back from the one before it, so many rounds.
  unfoldable pub back : ℕ → ℕ → Work → Option Work
  back n k w = do
    let i = n - 2 - k
    ci ← get_elem? w.c i
    next ← get_elem? w.c (i + 1)
    ui ← get_elem? w.u i
    c ← store w.c i (add (mul ci next) ui)
    some (record w { c = c })

  unfoldable pub finish : ℕ → (x y : List R) → R → Work → Option Work
  finish n x y cn w = do
    (qn, un) ← if lt limit cn then some (whole_number 0, whole_number 0) else end_values n x y cn
    u ← get_elem? w.u (n - 2)
    cb ← get_elem? w.c (n - 2)
    c ← store w.c (n - 1) (div (sub un (mul qn u)) (add (mul qn cb) (whole_number 1)))
    for_from (n - 1) 0 (back n) (record w { c = c })

  -- spline, of n points; with fewer than two it reads before the arrays.
  unfoldable pub spline : ℕ → (x y : List R) → R → R → List R → Option (List R)
  spline n x y c1 cn c =
      let made = (do
        w0 ← begin x y c1 (record { c = c; u = replicate n (whole_number 0) })
        w1 ← for_from (n - 2) 1 (eliminate x y) w0
        w2 ← finish n x y cn w1
        some w2.c) in
      if ltb n 2 then none else made

  -- Row `j` of `nc` elements
  unfoldable pub row_of : ℕ → ℕ → List R → Option (List R)
  row_of nc j y = if leb (j * nc + nc) (length y) then some (take nc (drop (j * nc) y)) else none

  -- spline2: the coefficients of so many rows from row `j` on, written behind one another. `ctmp` is
  -- the working memory.
  unfoldable pub spline2 : (rounds j nc : ℕ) → (x2 y ctmp : List R) → Option (List R)
  spline2 zero j nc x2 y ctmp = some []
  spline2 (suc n) j nc x2 y ctmp = do
    ytmp ← row_of nc j y
    c ← spline nc x2 ytmp amax amax ctmp
    rest ← spline2 n (j + 1) nc x2 y c
    some (c ++ rest)

  -- The loop of splint2: the values of so many rows at `x2o`, and whether splint returned true for all.
  unfoldable pub row_values :
      R → (rounds j nc : ℕ) → (x2 y c : List R) → R → Option (Option (List R))
  row_values eps zero j nc x2 y c x2o = some (some [])
  row_values eps (suc n) j nc x2 y c x2o = do
    ytmp ← row_of nc j y
    ctmp ← row_of nc j c
    rest ← row_values eps n (j + 1) nc x2 y c x2o
    some (splint real eps nc x2 ytmp ctmp x2o >>= λ v. rest >>= λ vs. some (v ∷ vs))

  -- splint2: a value, or none where it returns false. `ctmp` holds the coefficients of the last row.
  unfoldable pub splint2 : R → (nr nc : ℕ) → (x1 x2 y c : List R) → R → R → Option (Option R)
  splint2 eps nr nc x1 x2 y c x1o x2o =
      let column = λ (yytmp : List R). row_of nc (nr - 1) c >>= λ last.
      let ctmp = last ++ replicate (nr - nc) (whole_number 0) in
      spline nr x1 yytmp amax amax ctmp >>= λ c1. some (splint real eps nr x1 yytmp c1 x1o) in
      row_values eps nr 0 nc x2 y c x2o >>= λ rows. elim rows [
        | none ↦ some none
        | some yytmp ↦ column yytmp
      ]
