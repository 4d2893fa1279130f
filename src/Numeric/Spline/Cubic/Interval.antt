-- ===== src/Numeric/Spline/Cubic/Interval.antt =====
-- The interval that CubicSpline finds, and that it stays within its arrays.
use camannex.Base.{
  ℕ, zero, suc, ◌+◌, ◌-◌, ◌<◌, ◌≤◌, ◌≡◌, ◌⊎◌, refl, ◌∙◌, List, [], ◌∷◌, true, false, ltb, length,
  get_elem?-eq-get_or, length-replicate, arith, Bool-cases, inl, inr, ap,
}
use camannex.Base.Int.{pos}
use camannex.Base.Real.{Real, Libm}
use camannex.Numeric.Interpolation.{item}
use camannex.Numeric.Loop.{
  Returns, Returns-some, Returns->>=, Returns-for_from, Returns-get_elem?, Returns-store,
}
use camannex.Numeric.Spline.Cubic.{
  Bands, edges, coefficients, eliminate, substitute, solve, interval, choose, value, values,
  cubic_spline,
}

-- Comparisons of numbers: none of them is a NaN.
pub record IsOrdered (real : Real) : Type 0 where
  pub total : (a b : real.R) → real.leb a b ≡ false → real.leb b a ≡ true
  pub not_lt : (a b : real.R) → real.ltb a b ≡ false → real.leb b a ≡ true

module _ {real : Real} (o : IsOrdered real) (n : ℕ) (xi : List real.R) (two : 2 ≤ n)
    (nx : length xi ≡ n) where
  open real use {R, ltb as lt, leb as le}

  -- An end interval for a position outside the points, and else one that holds the position.
  pub Holds : R → ℕ → Type 0
  Holds t j =
      (j + 1 < n)
      × ((lt t (item real xi 0) ≡ true) × (j ≡ 0)
          ⊎ (lt (item real xi (n - 1)) t ≡ true) × (j + 2 ≡ n)
          ⊎ (le (item real xi j) t ≡ true) × (le t (item real xi (j + 1)) ≡ true))

  interval-Holds :
      (t : R)
      → le t (item real xi (n - 1)) ≡ true
      → (rounds j : ℕ) → j + rounds + 1 ≡ n
      → 0 < rounds
      → le (item real xi j) t ≡ true
      → Returns (Holds t) (interval real rounds j xi t)
  unfolding interval Holds
  interval-Holds t top zero j e h low = absurd (omega arith)
  interval-Holds t top (suc rounds) j e h low =
      let zero_r = real.of_int (pos 0) in
      let first = get_elem?-eq-get_or xi j zero_r (omega arith) in
      let second = get_elem?-eq-get_or xi (j + 1) zero_r (omega arith) in
      elim (Bool-cases (le t (item real xi (j + 1)))) [
        | inl below ↦
            (j, rw (first, second, low, below) refl, (omega arith, inr (inr (low, below))))
        | inr above ↦
            let next = o.total t (item real xi (j + 1)) above in
            elim (Bool-cases (ltb 0 rounds)) [
              | inl more ↦
                  rw (first, second, low, above)
                    (interval-Holds t top rounds (j + 1) (omega arith) (ground arith) next)
              | inr done ↦
                  let last : j + 1 ≡ n - 1 = ground arith in
                  absurd (cc (ap (λ i. le t (item real xi i)) last))
            ]
      ]

  inner : (t : R) (j : ℕ) → Holds t j → j + 1 < n
  unfolding Holds
  inner t j h = h.0

  -- With two points or more, and comparisons of numbers, also where the points are in no order:
  -- CubicSpline interpolates between the first two points before all points, between the last two
  -- behind them, and else between neighbours that hold the position.
  pub choose-Holds : (t : R) → Returns (Holds t) (choose real n xi t)
  unfolding choose Holds
  choose-Holds t =
      let zero_r = real.of_int (pos 0) in
      let first = get_elem?-eq-get_or xi 0 zero_r (omega arith) in
      let last = get_elem?-eq-get_or xi (n - 1) zero_r (omega arith) in
      elim (Bool-cases (lt t (item real xi 0))) [
        | inl before ↦ (0, rw (first, last, before) refl, (omega arith, inl (before, refl)))
        | inr not_before ↦ elim (Bool-cases (lt (item real xi (n - 1)) t)) [
          | inl behind ↦ (
            n - 2,
            rw (first, last, not_before, behind) refl,
            (omega arith, inr (inl (behind, omega arith))),
          )
          | inr not_behind ↦
              let r =
                interval-Holds t (o.not_lt (item real xi (n - 1)) t not_behind) (n - 1) 0
                  (omega arith) (omega arith) (o.not_lt t (item real xi 0) not_before) in
              (r.0, rw (first, last, not_before, not_behind) r.1, r.2)
        ]
      ]

  -- The four arrays have a place for each point.
  abbrev HasRoom : Bands real → Type 0
  HasRoom s = (length s.a ≡ n) × (length s.b ≡ n) × (length s.c ≡ n) × (length s.d ≡ n)

  edges-HasRoom : (s : Bands real) → HasRoom s → Returns HasRoom (edges real n s)
  unfolding edges
  edges-HasRoom s (a, b, c, d) = Returns-store HasRoom s.a 0 _ _ (omega arith) λ a0 a'.
      Returns-store HasRoom a0 (n - 1) _ _ (omega arith) λ a1 a''.
        Returns-store HasRoom s.b 0 _ _ (omega arith) λ b0 b'.
          Returns-store HasRoom b0 (n - 1) _ _ (omega arith) λ b1 b''.
            Returns-store HasRoom s.c 0 _ _ (omega arith) λ c0 c'.
              Returns-store HasRoom c0 (n - 1) _ _ (omega arith) λ c1 c''.
                Returns-store HasRoom s.d 0 _ _ (omega arith) λ d0 d'.
                  Returns-store HasRoom d0 (n - 1) _ _ (omega arith) λ d1 d''.
                    Returns-some HasRoom _
                      (a'' ∙ (a' ∙ a), b'' ∙ (b' ∙ b), c'' ∙ (c' ∙ c), d'' ∙ (d' ∙ d))

  eliminate-HasRoom :
      (i : ℕ) → 1 ≤ i → i < n → (s : Bands real) → HasRoom s → Returns HasRoom (eliminate real i s)
  unfolding eliminate
  eliminate-HasRoom i h g s (a, b, c, d) = Returns-get_elem? HasRoom s.a i _ (omega arith) λ ai.
      Returns-get_elem? HasRoom s.b i _ (omega arith) λ bi.
        Returns-get_elem? HasRoom s.c (i - 1) _ (omega arith) λ cb.
          Returns-get_elem? HasRoom s.c i _ (omega arith) λ ci.
            Returns-get_elem? HasRoom s.d i _ (omega arith) λ di.
              Returns-get_elem? HasRoom s.d (i - 1) _ (omega arith) λ db.
                Returns-store HasRoom s.c i _ _ (omega arith) λ c' e.
                  Returns-store HasRoom s.d i _ _ (omega arith)
                    λ d' f. Returns-some HasRoom _ (a, b, e ∙ c, f ∙ d)

  substitute-HasRoom :
      (i : ℕ) → i < n - 1 → (s : Bands real) → HasRoom s → Returns HasRoom (substitute real n i s)
  unfolding substitute
  substitute-HasRoom i h s (a, b, c, d) =
      Returns-get_elem? HasRoom s.d (n - i - 2) _ (omega arith) λ dj.
        Returns-get_elem? HasRoom s.c (n - i - 2) _ (omega arith) λ cj.
          Returns-get_elem? HasRoom s.a (n - i - 2 + 1) _ (omega arith) λ next.
            Returns-store HasRoom s.a (n - i - 2) _ _ (omega arith)
              λ a' e. Returns-some HasRoom _ (e ∙ a, b, c, d)

  module _ (yi : List R) (ny : length yi ≡ n) where
    coefficients-HasRoom :
        (i : ℕ)
        → 1 ≤ i
        → i < 1 + (n - 2)
        → (s : Bands real) → HasRoom s
        → Returns HasRoom (coefficients real xi yi i s)
    unfolding coefficients
    coefficients-HasRoom i h g s (a, b, c, d) = Returns-get_elem? HasRoom xi i _ (omega arith) λ x.
        Returns-get_elem? HasRoom xi (i - 1) _ (omega arith) λ xb.
          Returns-get_elem? HasRoom xi (i + 1) _ (omega arith) λ xa.
            Returns-get_elem? HasRoom yi i _ (omega arith) λ y.
              Returns-get_elem? HasRoom yi (i - 1) _ (omega arith) λ yb.
                Returns-get_elem? HasRoom yi (i + 1) _ (omega arith) λ ya.
                  Returns-store HasRoom s.a i _ _ (omega arith) λ a' e.
                    Returns-store HasRoom s.c i _ _ (omega arith) λ c' f.
                      Returns-store HasRoom s.b i _ _ (omega arith) λ b' k.
                        Returns-store HasRoom s.d i _ _ (omega arith)
                          λ d' l. Returns-some HasRoom _ (e ∙ a, k ∙ b, f ∙ c, l ∙ d)

    solve_within : (junk : R) → Returns (λ a. length a ≡ n) (solve real junk n xi yi)
    unfolding solve
    solve_within junk =
        let fresh = length-replicate n junk in
        Returns->>= HasRoom _ _ _ (edges-HasRoom _ (fresh, fresh, fresh, fresh)) λ s0 h0.
          Returns->>= HasRoom _ _ _
            (Returns-for_from HasRoom (n - 2) 1 (coefficients real xi yi)
              (λ i a b s r. coefficients-HasRoom i a b s r) s0 h0)
            λ s1 h1.
              Returns->>= HasRoom _ _ _
                (Returns-for_from HasRoom (n - 1) 1 (eliminate real)
                  (λ i a b s r. eliminate-HasRoom i a (omega arith) s r) s1 h1)
                λ s2 h2. Returns-get_elem? _ s2.d (n - 1) _ (omega arith) λ last.
                  Returns-store _ s2.a (n - 1) _ _ (omega arith) λ a e.
                    Returns->>= HasRoom _ _ _
                      (Returns-for_from HasRoom (n - 1) 0 (substitute real n)
                        (λ i p q s r. substitute-HasRoom i (omega arith) s r) _
                        (e ∙ h2.0, h2.1, h2.2, h2.3))
                      λ s3 h3. Returns-some _ s3.a (h3.0)

    module _ (libm : Libm R) where
      value-some :
          (a : List R) (t : R) (j : ℕ)
          → length a ≡ n
          → j + 1 < n
          → Returns (λ (v : R). Unit {0}) (value real libm xi yi a t j)
      unfolding value
      value-some a t j na h = Returns-get_elem? _ xi j _ (omega arith) λ xj.
          Returns-get_elem? _ xi (j + 1) _ (omega arith) λ xk.
            Returns-get_elem? _ yi j _ (omega arith) λ yj.
              Returns-get_elem? _ yi (j + 1) _ (omega arith) λ yk.
                Returns-get_elem? _ a j _ (omega arith)
                  λ aj. Returns-get_elem? _ a (j + 1) _ (omega arith) λ ak. Returns-some _ _ tt

      values_within :
          (a xo : List R)
          → length a ≡ n
          → Returns (λ yo. length yo ≡ length xo) (values real libm n xi yi a xo)
      unfolding values
      values_within a [] na = Returns-some _ [] refl
      values_within a (t ∷ xo) na = Returns->>= (Holds t) _ _ _ (choose-Holds t) λ j h.
          Returns->>= _ _ _ _ (value-some a t j na (inner t j h)) λ v _.
            Returns->>= _ _ _ _ (values_within a xo na) λ vs e. Returns-some _ (v ∷ vs) (ap suc e)

      -- With two points or more, and comparisons of numbers, CubicSpline returns a value for each
      -- position and stays within its arrays, also where the points are in no order.
      pub cubic_spline_within :
          (junk : R) (xo : List R)
          → Returns (λ yo. length yo ≡ length xo) (cubic_spline real libm junk n xi yi xo)
      unfolding cubic_spline
      cubic_spline_within junk xo =
          Returns->>= _ _ _ _ (solve_within junk) λ a na. values_within a xo na
