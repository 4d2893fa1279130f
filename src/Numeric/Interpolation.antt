-- ===== src/Numeric/Interpolation.antt =====
-- splint and Lagrange of src/AMath.cpp: where in the table they interpolate, and what.
use camannex.Base.{
  ℕ, zero, suc, ◌+◌, ◌-◌, ◌/◌, ◌<◌, ◌≤◌, ◌≡◌, ◌⊎◌, refl, List, [], ◌∷◌, true, false, ltb, leb,
  if◌then◌else◌, length, get_or, arith, Bool-cases, inl, inr, Option, none, some, map,
}
use camannex.Base.Int.{pos}
use camannex.Base.Real.{Real}

module _ (real : Real) where
  open real use {R, add, sub, mul, div, neg, of_int, literal, ltb as lt}

  -- `x[i]`
  abbrev pub item : List R → ℕ → R
  item xs i = get_or xs i (of_int (pos 0))

  -- `while ((khi - klo) > 1)` of splint, in at most so many rounds.
  unfoldable pub bisect : ℕ → List R → R → ℕ × ℕ → ℕ × ℕ
  bisect zero x xo (klo, khi) = (klo, khi)
  bisect (suc rounds) x xo (klo, khi) =
      let k = (khi + klo) / 2 in
      let rest = bisect rounds x xo (if lt xo (item x k) then (klo, k) else (k, khi)) in
      if ltb 1 (khi - klo) then rest else (klo, khi)

  abbrev pub fabs : R → R
  fabs a = if lt a (of_int (pos 0)) then neg a else a

  -- splint of a table of `n` points, at least one: none where it returns false.
  unfoldable pub splint : R → ℕ → (x y c : List R) → R → Option R
  unfolding bisect
  splint eps n x y c xo =
      let (klo, khi) = bisect n x xo (0, n - 1) in
      let h = sub (item x khi) (item x klo) in
      let a = div (sub (item x khi) xo) h in
      let b = div (sub xo (item x klo)) h in
      let one = of_int (pos 1) in
      let low = mul (mul (sub (mul a a) one) a) (item c klo) in
      let high = mul (mul (sub (mul b b) one) b) (item c khi) in
      if lt (fabs h) eps
      then none
      else some (
          add (add (mul a (item y klo)) (mul b (item y khi)))
            (div (mul (mul (add low high) h) h) (of_int (pos 6))))

  -- The points that splint interpolates between: neighbours, the left one the first or not above `xo`,
  -- the right one the last or above it.
  abbrev pub Brackets : List R → R → ℕ → ℕ × ℕ → Type 0
  Brackets x xo last (lo, hi) =
      ((lo ≡ 0) ⊎ (lt xo (item x lo) ≡ false))
      × ((hi ≡ last) ⊎ (lt xo (item x hi) ≡ true))
      × (hi ≤ last)

  bisect_from :
      (rounds : ℕ) (x : List R) (xo : R) (last lo hi : ℕ)
      → lo < hi
      → hi ≤ lo + rounds + 1
      → Brackets x xo last (lo, hi)
      → let r = bisect rounds x xo (lo, hi) in Brackets x xo last r × (r.1 ≡ r.0 + 1)
  unfolding bisect
  bisect_from zero x xo last lo hi h few b = (b, omega arith)
  bisect_from (suc rounds) x xo last lo hi h few (l, r, t) = elim (Bool-cases (ltb 1 (hi - lo))) [
    | inr done ↦ rw done ((l, r, t), ground arith)
    | inl more ↦
        let k = (hi + lo) / 2 in
        let (a, b) : (lo < k) × (k < hi) = ground arith in
        elim (Bool-cases (lt xo (item x k))) [
          | inl above ↦
              rw (more, above)
                (bisect_from rounds x xo last lo k a (omega arith) (l, inr above, omega arith))
          | inr below ↦
              rw (more, below) (bisect_from rounds x xo last k hi b (omega arith) (inr below, r, t))
        ]
  ]

  -- In a table of two points or more, the search of splint ends, and with neighbours: the left one is
  -- the first point or not above `xo`, the right one the last point or above `xo`.
  pub bisect-Brackets :
      (n : ℕ) (x : List R) (xo : R)
      → 2 ≤ n
      → Brackets x xo (n - 1) (bisect n x xo (0, n - 1))
        × ((bisect n x xo (0, n - 1)).1 ≡ (bisect n x xo (0, n - 1)).0 + 1)
  bisect-Brackets n x xo two =
      bisect_from n x xo (n - 1) 0 (n - 1) (omega arith) (omega arith)
        (inl refl, inl refl, omega arith)

  -- `for (j = 0; j < N; ++j) if (XI[j] > x) break`
  unfoldable pub first_above : R → List R → ℕ
  first_above x [] = 0
  first_above x (xi ∷ xis) = let later = suc (first_above x xis) in if lt x xi then 0 else later

  -- The factors of t1 for `j` from the given index on, so many.
  unfoldable pub factors : List R → R → ℕ → ℕ → ℕ → R → R
  factors xi x i zero j t1 = t1
  factors xi x i (suc n) j t1 =
      factors xi x i n (j + 1) (div (mul t1 (sub x (item xi j))) (sub (item xi i) (item xi j)))

  -- `for (i = SI; i <= EI; ++i)`, so many rounds.
  unfoldable pub terms : (xi yi : List R) → R → ℕ → ℕ → ℕ → ℕ → R → R
  unfolding factors
  terms xi yi x si ei zero i t0 = t0
  terms xi yi x si ei (suc n) i t0 =
      let t1 = factors xi x i (i - si) si (of_int (pos 1)) in
      let t2 = factors xi x i (ei - i) (i + 1) t1 in
      terms xi yi x si ei n (i + 1) (add t0 (mul t2 (item yi i)))

-- `if (OD < 2) OD = 2; if (OD > N) OD = N`
unfoldable pub order_of : ℕ → ℕ → ℕ
order_of n od = let od2 = if ltb od 2 then 2 else od in if ltb n od2 then n else od2

-- SI and EI for the position `j`. There is at least one point.
unfoldable pub window : ℕ → ℕ → ℕ → ℕ × ℕ
unfolding order_of
window n od j =
    let od' = order_of n od in
    let oh = od' / 2 in
    let (si, ei) : ℕ × ℕ = if ltb j oh then (0, od' - 1) else (j - oh, j - oh + od' - 1) in
    if leb n ei then (n - 1 + 1 - od', n - 1) else (si, ei)

-- Lagrange, for points that are there.
module _ (real : Real) where
  unfoldable pub lagrange : (xi yi : List real.R) → ℕ → List real.R → List real.R
  unfolding first_above window terms
  lagrange xi yi od xo =
      map
        (λ x.
          let (si, ei) = window (length xi) od (first_above real x xi) in
          terms real xi yi x si ei (ei + 1 - si) si (real.of_int (pos 0)))
        xo

-- Whatever order is asked for and wherever the position lies among the points, the points that Lagrange
-- uses lie in the table, are as many as the order it corrected, and are those on either side of an
-- inner position.
pub window-within :
    (n od j : ℕ)
    → 0 < n
    → j ≤ n
    → let (si, ei) = window n od j in
      (ei < n) × (si + order_of n od ≡ ei + 1) × ((j ≡ 0) ⊎ (si + 1 ≤ j)) × ((j ≡ n) ⊎ (j ≤ ei))
unfolding window order_of
window-within n od j some_points h = (ground arith, ground arith, ground arith, ground arith)
