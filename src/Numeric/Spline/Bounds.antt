-- ===== src/Numeric/Spline/Bounds.antt =====
-- That spline stays within its arrays.
use camannex.Base.{
  ℕ, ◌+◌, ◌-◌, ◌<◌, ◌≤◌, ◌≡◌, ◌∙◌, List, false, some, ltb, if◌then◌else◌, length, length-replicate,
  replicate, arith, Bool-cases, inl, inr,
}
use camannex.Base.Int.{pos}
use camannex.Base.Real.{Real}
use camannex.Numeric.Loop.{
  Returns, Returns-some, Returns->>=, Returns-for_from, Returns-get_elem?, Returns-store,
}
use camannex.Numeric.Spline.{
  Work, limit, free_begin, given_begin, begin, eliminate, end_values, back, finish, spline,
}

module _ (real : Real) (m n : ℕ) (x y : List real.R) (two : 2 ≤ n) (room : n ≤ m)
    (nx : n ≤ length x) (ny : n ≤ length y) where
  open real use {R, ltb as lt}

  -- The working arrays have room for the points; that of the caller keeps its length.
  abbrev HasRoom : Work real → Type 0
  HasRoom w = (length w.c ≡ m) × (length w.u ≡ n)

  free_begin-HasRoom : (w : Work real) → HasRoom w → Returns HasRoom (free_begin real w)
  unfolding free_begin
  free_begin-HasRoom w (a, b) = Returns-store HasRoom w.c 0 _ _ (omega arith) λ c e.
      Returns-store HasRoom w.u 0 _ _ (omega arith) λ u f. Returns-some HasRoom _ (e ∙ a, f ∙ b)

  eliminate-HasRoom :
      (i : ℕ)
      → 1 ≤ i
      → i < 1 + (n - 2)
      → (w : Work real) → HasRoom w
      → Returns HasRoom (eliminate real x y i w)
  unfolding eliminate
  eliminate-HasRoom i h g w (a, b) = Returns-get_elem? HasRoom x i _ (omega arith) λ xi.
      Returns-get_elem? HasRoom x (i - 1) _ (omega arith) λ before.
        Returns-get_elem? HasRoom x (i + 1) _ (omega arith) λ after.
          Returns-get_elem? HasRoom w.c (i - 1) _ (omega arith) λ cb.
            Returns-get_elem? HasRoom y i _ (omega arith) λ yi.
              Returns-get_elem? HasRoom y (i - 1) _ (omega arith) λ yb.
                Returns-get_elem? HasRoom y (i + 1) _ (omega arith) λ ya.
                  Returns-get_elem? HasRoom w.u (i - 1) _ (omega arith) λ ub.
                    Returns-store HasRoom w.c i _ _ (omega arith) λ c e.
                      Returns-store HasRoom w.u i _ _ (omega arith)
                        λ u f. Returns-some HasRoom _ (e ∙ a, f ∙ b)

  given_begin-HasRoom :
      (c1 : R) (w : Work real) → HasRoom w → Returns HasRoom (given_begin real x y c1 w)
  unfolding given_begin
  given_begin-HasRoom c1 w (a, b) = Returns-store HasRoom w.c 0 _ _ (omega arith) λ c e.
      Returns-get_elem? HasRoom x 1 _ (omega arith) λ x1.
        Returns-get_elem? HasRoom x 0 _ (omega arith) λ x0.
          Returns-get_elem? HasRoom y 1 _ (omega arith) λ y1.
            Returns-get_elem? HasRoom y 0 _ (omega arith) λ y0.
              Returns-store HasRoom w.u 0 _ _ (omega arith)
                λ u f. Returns-some HasRoom _ (e ∙ a, f ∙ b)

  begin-HasRoom : (c1 : R) (w : Work real) → HasRoom w → Returns HasRoom (begin real x y c1 w)
  unfolding begin
  begin-HasRoom c1 w h = elim (Bool-cases (lt (limit real) c1)) [
    | inl free ↦ rw free (free_begin-HasRoom w h)
    | inr given ↦ rw given (given_begin-HasRoom c1 w h)
  ]

  back-HasRoom :
      (k : ℕ) → k < n - 1 → (w : Work real) → HasRoom w → Returns HasRoom (back real n k w)
  unfolding back
  back-HasRoom k h w (a, b) = Returns-get_elem? HasRoom w.c (n - 2 - k) _ (omega arith) λ ci.
      Returns-get_elem? HasRoom w.c (n - 2 - k + 1) _ (omega arith) λ next.
        Returns-get_elem? HasRoom w.u (n - 2 - k) _ (omega arith) λ ui.
          Returns-store HasRoom w.c (n - 2 - k) _ _ (omega arith)
            λ c e. Returns-some HasRoom _ (e ∙ a, b)

  end_values-some : (cn : R) → Returns (λ (r : R × R). Unit {0}) (end_values real n x y cn)
  unfolding end_values
  end_values-some cn = Returns-get_elem? _ x (n - 1) _ (omega arith) λ xl.
      Returns-get_elem? _ x (n - 2) _ (omega arith) λ xb.
        Returns-get_elem? _ y (n - 1) _ (omega arith)
          λ yl. Returns-get_elem? _ y (n - 2) _ (omega arith) λ yb. Returns-some _ _ tt

  last_values-some :
      (cn : R)
      → Returns
          (λ (r : R × R). Unit {0})
          (if lt (limit real) cn
            then some (real.of_int (pos 0), real.of_int (pos 0))
            else end_values real n x y cn)
  last_values-some cn = elim (Bool-cases (lt (limit real) cn)) [
    | inl free ↦ rw free (Returns-some _ _ tt)
    | inr given ↦ rw given (end_values-some cn)
  ]

  finish-HasRoom : (cn : R) (w : Work real) → HasRoom w → Returns HasRoom (finish real n x y cn w)
  unfolding finish
  finish-HasRoom cn w (a, b) = Returns->>= _ HasRoom _ _ (last_values-some cn) λ q _.
      Returns-get_elem? HasRoom w.u (n - 2) _ (omega arith) λ u.
        Returns-get_elem? HasRoom w.c (n - 2) _ (omega arith) λ cb.
          Returns-store HasRoom w.c (n - 1) _ _ (omega arith) λ c e.
            Returns-for_from HasRoom (n - 1) 0 (back real n)
              (λ k h g s r. back-HasRoom k (omega arith) s r) _ (e ∙ a, b)

  -- With two points or more, and room for them in all three arrays, spline returns without leaving
  -- them, and the array of its coefficients keeps its length.
  pub spline_within :
      (c1 cn : R) (c : List R)
      → length c ≡ m
      → Returns (λ c'. length c' ≡ m) (spline real n x y c1 cn c)
  unfolding spline
  spline_within c1 cn c h =
      let start : ltb n 2 ≡ false = ground arith in
      let zeros = replicate n (real.of_int (pos 0)) in
      let work : HasRoom (record { c = c; u = zeros }) =
        (h, length-replicate n (real.of_int (pos 0))) in
      rw start (
        Returns->>= HasRoom _ _ _ (begin-HasRoom c1 (record { c = c; u = zeros }) work) λ w0 h0.
          Returns->>= HasRoom _ _ _
            (Returns-for_from HasRoom (n - 2) 1 (eliminate real x y)
              (λ i a b s r. eliminate-HasRoom i a b s r) w0 h0)
            λ w1 h1.
              Returns->>= HasRoom _ _ _ (finish-HasRoom cn w1 h1)
                λ w2 h2. Returns-some _ w2.c (h2.0))
