-- ===== src/Numeric/Fit/Sums.antt =====
-- What the loop of GaussFit2D leaves in Q and B.
use native.Mathlib.Nat.{suc-mul}
use camannex.Base.{
  ℕ, zero, suc, ◌+◌, ◌*◌, ◌<◌, ◌≤◌, ◌≡◌, refl, ap, ◌∙◌, List, [], ◌∷◌, ◌++◌, if◌then◌else◌, length,
  get_or, replicate, arith, get_elem?-eq-get_or, get_or-replicate, Bool-cases, inl, inr,
}
use camannex.Base.Int.{pos}
use camannex.Base.Real.{Real, Libm}
use camannex.Numeric.Loop.{for_from, Returns, Returns-some}
use camannex.Numeric.Fit.{add_to, to_q, to_b, Equations, add_point, equations}

module _ (real : Real) where
  open real use {R, add, mul}

  length-add_to : (vs ws : List R) → length (add_to real vs ws) ≡ length vs
  unfolding add_to
  length-add_to [] ws = refl
  length-add_to (v ∷ vs) [] = refl
  length-add_to (v ∷ vs) (w ∷ ws) = rw (length-add_to vs ws) refl

  get_or-add_to :
      (vs ws : List R) (k : ℕ) (d : R)
      → k < length vs
      → k < length ws
      → get_or (add_to real vs ws) k d ≡ add (get_or vs k d) (get_or ws k d)
  unfolding add_to
  get_or-add_to [] ws k d h g = absurd (omega arith)
  get_or-add_to (v ∷ vs) [] k d h g = absurd (omega arith)
  get_or-add_to (v ∷ vs) (w ∷ ws) zero d h g = refl
  get_or-add_to (v ∷ vs) (w ∷ ws) (suc k) d h g =
      get_or-add_to vs ws k d (omega arith) (omega arith)

  -- The products of the elements of two lists, one row behind the other.
  abbrev times : R → List R → List R
  times u [] = []
  times u (v ∷ vs) = mul u v ∷ times u vs

  abbrev outer : List R → List R → List R
  outer [] vs = []
  outer (u ∷ us) vs = times u vs ++ outer us vs

  -- An element of the first row, and one behind it.
  get_or-times_here :
      (u : R) (vs ws : List R) (c : ℕ) (d : R)
      → c < length vs
      → get_or (times u vs ++ ws) c d ≡ mul u (get_or vs c d)
  get_or-times_here u [] ws c d h = absurd (omega arith)
  get_or-times_here u (v ∷ vs) ws zero d h = refl
  get_or-times_here u (v ∷ vs) ws (suc c) d h = get_or-times_here u vs ws c d (omega arith)

  get_or-times_behind :
      (u : R) (vs ws : List R) (n c : ℕ) (d : R)
      → n ≡ length vs + c
      → get_or (times u vs ++ ws) n d ≡ get_or ws c d
  get_or-times_behind u [] ws n c d e =
      let same : n ≡ c = omega arith in ap (λ k. get_or ws k d) same
  get_or-times_behind u (v ∷ vs) ws zero c d e = absurd (omega arith)
  get_or-times_behind u (v ∷ vs) ws (suc n) c d e = get_or-times_behind u vs ws n c d (omega arith)

  get_or-outer :
      (us vs : List R) (r c : ℕ) (d : R)
      → r < length us
      → c < length vs
      → get_or (outer us vs) (r * length vs + c) d ≡ mul (get_or us r d) (get_or vs c d)
  get_or-outer [] vs r c d h g = absurd (omega arith)
  get_or-outer (u ∷ us) vs zero c d h g =
      let e : 0 * length vs + c ≡ c = omega arith in
      rw e (get_or-times_here u vs (outer us vs) c d g)
  get_or-outer (u ∷ us) vs (suc r) c d h g =
      get_or-times_behind u vs (outer us vs) (suc r * length vs + c) (r * length vs + c) d
        (omega (arith, suc-mul r (length vs)))
      ∙ get_or-outer us vs r c d (omega arith) g

module _ (real : Real) (libm : Libm real.R) where
  open real use {R, add, mul, of_int, literal, leb as le}

  abbrev nothing : R
  nothing = of_int (pos 0)

  -- The functions whose linear combination is fitted to the logarithm, each times the height: 1, x, y,
  -- x² and y².
  abbrev pub terms : (x y z : R) → List R
  terms x y z = z ∷ mul z x ∷ mul z y ∷ mul (mul z x) x ∷ mul (mul z y) y ∷ []

  abbrev pub term : ℕ → (x y z : R) → R
  term r x y z = get_or (terms x y z) r nothing

  -- The sum over the points from `i` on that are not left out.
  abbrev pub total : ((x y z : R) → R) → (n i : ℕ) → (xs ys zs : List R) → R → R
  total f zero i xs ys zs t = t
  total f (suc n) i xs ys zs t =
      let z = get_or zs i nothing in
      total f n (i + 1) xs ys zs
        (if le z (literal 1 10) then t else add t (f (get_or xs i nothing) (get_or ys i nothing) z))

  to_b-outer : (x y z : R) → to_b real libm x y z ≡ outer real (terms x y z) (terms x y z)
  unfolding to_b
  to_b-outer x y z = refl

  to_q-times :
      (x y z : R) → to_q real libm x y z ≡ times real (mul z (libm.log z)) (terms x y z) ++ []
  unfolding to_q
  to_q-times x y z = refl

  module _ (xs ys zs : List R) (r c : ℕ) (h : r < 5) (g : c < 5) where
    -- What the sums stand at after further points.
    abbrev Adds : (n i : ℕ) → Equations real libm → Equations real libm → Type 0
    Adds n i s s' =
        (get_or s'.b (r * 5 + c) nothing
          ≡ total (λ x y z. mul (term r x y z) (term c x y z)) n i xs ys zs
              (get_or s.b (r * 5 + c) nothing))
        × (get_or s'.q r nothing
            ≡ total (λ x y z. mul (mul z (libm.log z)) (term r x y z)) n i xs ys zs
                (get_or s.q r nothing))

    added_b :
        (b : List R) (x y z : R)
        → length b ≡ 25
        → get_or (add_to real b (to_b real libm x y z)) (r * 5 + c) nothing
          ≡ add (get_or b (r * 5 + c) nothing) (mul (term r x y z) (term c x y z))
    added_b b x y z e =
        get_or-add_to real b (to_b real libm x y z) (r * 5 + c) nothing (omega arith)
          (rw (to_b-outer x y z) (omega arith))
        ∙ ap (add (get_or b (r * 5 + c) nothing))
            (rw (to_b-outer x y z) (get_or-outer real (terms x y z) (terms x y z) r c nothing h g))

    added_q :
        (q : List R) (x y z : R)
        → length q ≡ 5
        → get_or (add_to real q (to_q real libm x y z)) r nothing
          ≡ add (get_or q r nothing) (mul (mul z (libm.log z)) (term r x y z))
    added_q q x y z e =
        get_or-add_to real q (to_q real libm x y z) r nothing (omega arith)
          (rw (to_q-times x y z) (omega arith))
        ∙ ap (add (get_or q r nothing)) (
            rw (to_q-times x y z)
              (get_or-times_here real (mul z (libm.log z)) (terms x y z) [] r nothing h))

    loop-Adds :
        (n i : ℕ) (s : Equations real libm)
        → i + n ≤ length xs
        → i + n ≤ length ys
        → i + n ≤ length zs
        → length s.q ≡ 5
        → length s.b ≡ 25
        → Returns (Adds n i s) (for_from n i (add_point real libm xs ys zs) s)
    unfolding for_from add_point
    loop-Adds zero i s a1 a2 a3 lq lb = Returns-some (Adds zero i s) s (refl, refl)
    loop-Adds (suc n) i s a1 a2 a3 lq lb =
        let x = get_or xs i nothing in
        let y = get_or ys i nothing in
        let z = get_or zs i nothing in
        rw (get_elem?-eq-get_or xs i nothing (omega arith)) (
          rw (get_elem?-eq-get_or ys i nothing (omega arith)) (
            rw (get_elem?-eq-get_or zs i nothing (omega arith))
              (elim (Bool-cases (le z (literal 1 10))) [
                | inl low ↦
                    rw low (loop-Adds n (i + 1) s (omega arith) (omega arith) (omega arith) lq lb)
                | inr high ↦ rw high (
                    let b' = add_to real s.b (to_b real libm x y z) in
                    let q' = add_to real s.q (to_q real libm x y z) in
                    let (s', e, more) =
                      loop-Adds n (i + 1) (record { q = q'; b = b' }) (omega arith) (omega arith)
                        (omega arith) (length-add_to real s.q (to_q real libm x y z) ∙ lq)
                        (length-add_to real s.b (to_b real libm x y z) ∙ lb) in
                    (
                      s',
                      e,
                      (
                        more.0
                            ∙ ap
                                (total (λ x y z. mul (term r x y z) (term c x y z)) n (i + 1) xs ys
                                  zs)
                                (added_b s.b x y z lb),
                        more.1
                            ∙ ap
                                (total (λ x y z. mul (mul z (libm.log z)) (term r x y z)) n (i + 1)
                                  xs ys zs)
                                (added_q s.q x y z lq),
                      ),
                    ))
              ])))

  -- For arrays of n elements at least, GaussFit2D leaves in row r and column c of B the sum, from zero
  -- and in order, over the points whose height is above 1E-10 of the product of the terms r and c, and
  -- in element r of Q that of the term r with the height times its logarithm. The terms of a point are
  -- the height, and the height times x, y, x² and y².
  pub equations_lem :
      (xs ys zs : List R) (n r c : ℕ)
      → n ≤ length xs
      → n ≤ length ys
      → n ≤ length zs
      → r < 5
      → c < 5
      → Returns
          (λ s.
            (get_or s.b (r * 5 + c) nothing
              ≡ total (λ x y z. mul (term r x y z) (term c x y z)) n 0 xs ys zs nothing)
            × (get_or s.q r nothing
                ≡ total (λ x y z. mul (mul z (libm.log z)) (term r x y z)) n 0 xs ys zs nothing))
          (equations real libm n xs ys zs)
  unfolding equations
  equations_lem xs ys zs n r c a1 a2 a3 h g =
      let (s', e, more) =
        loop-Adds xs ys zs r c h g n 0
          (record { q = replicate 5 nothing; b = replicate 25 nothing }) (omega arith) (omega arith)
          (omega arith) refl refl in
      (
        s',
        e,
        (
          more.0
              ∙ ap (total (λ x y z. mul (term r x y z) (term c x y z)) n 0 xs ys zs)
                  (get_or-replicate 25 (r * 5 + c) nothing),
          more.1
              ∙ ap (total (λ x y z. mul (mul z (libm.log z)) (term r x y z)) n 0 xs ys zs)
                  (get_or-replicate 5 r nothing),
        ),
      )
