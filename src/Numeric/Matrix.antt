-- ===== src/Numeric/Matrix.antt =====
-- MatTrans and MatRealMult of src/AMath.cpp: matrices as lists, one row behind the other.
pub mod Invert
pub mod Product
use native.Mathlib.Nat.{suc-mul, zero-add}
use camannex.Base.{
  ℕ, zero, suc, ◌+◌, ◌-◌, ◌*◌, ◌<◌, ◌≤◌, ◌≡◌, ◌⊎◌, refl, ◌∙◌, List, length, get_or, set, get_or-set,
  length-set, arith, inl, inr, subst,
}

module _ {A : Type 0} (d : A) where
  -- `for (j = 0, p = A; j < M; ++j, p += N, ++q) *q = *p`, so many rounds, with the stride N.
  unfoldable pub trans_row : (rounds stride p q : ℕ) → List A → List A → List A
  trans_row zero stride p q a b = b
  trans_row (suc rounds) stride p q a b =
      trans_row rounds stride (p + stride) (q + 1) a (set b q (get_or a p d))

  -- The outer loop, so many rounds.
  unfoldable pub trans_rows : (rounds m stride p q : ℕ) → List A → List A → List A
  unfolding trans_row
  trans_rows zero m stride p q a b = b
  trans_rows (suc rounds) m stride p q a b =
      trans_rows rounds m stride (p + 1) (q + m) a (trans_row m stride p q a b)

  -- MatTrans, for a matrix of m rows and n columns. `b` is what the result's memory holds before.
  unfoldable pub mat_trans : (m n : ℕ) → List A → List A → List A
  unfolding trans_rows
  mat_trans m n a b = trans_rows n m n 0 0 a b

  length-trans_row :
      (rounds s p q : ℕ) (a b : List A) → length (trans_row rounds s p q a b) ≡ length b
  unfolding trans_row
  length-trans_row zero s p q a b = refl
  length-trans_row (suc rounds) s p q a b =
      length-trans_row rounds s (p + s) (q + 1) a (set b q (get_or a p d))
      ∙ length-set b q (get_or a p d)

  trans_row_outside :
      (m s p q k : ℕ) (a b : List A)
      → q + m ≤ length b
      → (k < q) ⊎ (q + m ≤ k)
      → get_or (trans_row m s p q a b) k d ≡ get_or b k d
  unfolding trans_row
  trans_row_outside zero s p q k a b fits out = refl
  trans_row_outside (suc m) s p q k a b fits out =
      let (e, f) : (q < length b) × (q + 1 + m ≤ length (set b q (get_or a p d))) =
        omega (arith, length-set b q (get_or a p d)) in
      trans_row_outside m s (p + s) (q + 1) k a (set b q (get_or a p d)) f (ground arith)
      ∙ ground (arith, get_or-set b q k (get_or a p d) d e)

  trans_row_inside :
      (m s p q r : ℕ) (a b : List A)
      → q + m ≤ length b
      → r < m
      → get_or (trans_row m s p q a b) (q + r) d ≡ get_or a (p + r * s) d
  unfolding trans_row
  trans_row_inside zero s p q r a b fits h = absurd (omega arith)
  trans_row_inside (suc m) s p q zero a b fits h =
      let (e, f) : (q < length b) × (q + 1 + m ≤ length (set b q (get_or a p d))) =
        omega (arith, length-set b q (get_or a p d)) in
      let (i, j) : (q + 0 ≡ q) × (p + 0 * s ≡ p) = omega arith in
      rw (i, j)
        (trans_row_outside m s (p + s) (q + 1) q a (set b q (get_or a p d)) f (inl (omega arith))
          ∙ ground (arith, get_or-set b q q (get_or a p d) d e))
  trans_row_inside (suc m) s p q (suc r) a b fits h =
      let f : q + 1 + m ≤ length (set b q (get_or a p d)) =
        omega (arith, length-set b q (get_or a p d)) in
      let (i, j) : (q + suc r ≡ q + 1 + r) × (p + suc r * s ≡ p + s + r * s) =
        omega (arith, suc-mul r s) in
      rw (i, j) (trans_row_inside m s (p + s) (q + 1) r a (set b q (get_or a p d)) f (omega arith))

  trans_rows_before :
      (n m s p q k : ℕ) (a b : List A)
      → q + n * m ≤ length b
      → k < q
      → get_or (trans_rows n m s p q a b) k d ≡ get_or b k d
  unfolding trans_rows
  trans_rows_before zero m s p q k a b fits h = refl
  trans_rows_before (suc n) m s p q k a b fits h =
      let (e, f) : (q + m ≤ length b) × (q + m + n * m ≤ length (trans_row m s p q a b)) =
        omega (arith, suc-mul n m, length-trans_row m s p q a b) in
      trans_rows_before n m s (p + 1) (q + m) k a (trans_row m s p q a b) f (omega arith)
      ∙ trans_row_outside m s p q k a b e (inl h)

  trans_rows_inside :
      (n m s p q i r : ℕ) (a b : List A)
      → q + n * m ≤ length b
      → i < n
      → r < m
      → get_or (trans_rows n m s p q a b) (q + i * m + r) d ≡ get_or a (p + i + r * s) d
  unfolding trans_rows
  trans_rows_inside zero m s p q i r a b fits h g = absurd (omega arith)
  trans_rows_inside (suc n) m s p q zero r a b fits h g =
      let (e, f) : (q + m ≤ length b) × (q + m + n * m ≤ length (trans_row m s p q a b)) =
        omega (arith, suc-mul n m, length-trans_row m s p q a b) in
      let (i, j) : (q + 0 * m + r ≡ q + r) × (p + 0 + r * s ≡ p + r * s) = omega arith in
      rw (i, j)
        (trans_rows_before n m s (p + 1) (q + m) (q + r) a (trans_row m s p q a b) f (omega arith)
          ∙ trans_row_inside m s p q r a b e g)
  trans_rows_inside (suc n) m s p q (suc i) r a b fits h g =
      let f : q + m + n * m ≤ length (trans_row m s p q a b) =
        omega (arith, suc-mul n m, length-trans_row m s p q a b) in
      let (x, y) : (q + suc i * m + r ≡ q + m + i * m + r)
          × (p + suc i + r * s ≡ p + 1 + i + r * s) =
        omega (arith, suc-mul i m) in
      rw (x, y)
        (trans_rows_inside n m s (p + 1) (q + m) i r a (trans_row m s p q a b) f (omega arith) g)

  -- The element of the result in row i and column j is the one of the matrix in row j and column i.
  pub mat_trans-get_or :
      (m n i j : ℕ) (a b : List A)
      → n * m ≤ length b
      → i < n
      → j < m
      → get_or (mat_trans m n a b) (i * m + j) d ≡ get_or a (i + j * n) d
  unfolding mat_trans
  mat_trans-get_or m n i j a b fits h g =
      let (x, y) : (0 + i * m + j ≡ i * m + j) × (0 + i + j * n ≡ i + j * n) = omega arith in
      subst (λ o. get_or (trans_rows n m n 0 0 a b) o d ≡ get_or a (i + j * n) d) x
        (subst (λ o. get_or (trans_rows n m n 0 0 a b) (0 + i * m + j) d ≡ get_or a o d) y
          (trans_rows_inside n m n 0 0 i j a b (omega arith) h g))
