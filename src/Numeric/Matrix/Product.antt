-- ===== src/Numeric/Matrix/Product.antt =====
-- MatRealMult of src/AMath.cpp: the product of two matrices.
use native.Mathlib.Nat.{suc-mul}
use native.Mathlib.Decide.{dec_lt}
use camannex.Base.{
  ℕ, zero, suc, ◌+◌, ◌*◌, ◌<◌, ◌≤◌, ◌≡◌, ◌≢◌, refl, ap, ◌∙◌, List, [], ◌∷◌, length, get_or, set,
  get_or-set, length-set, arith, subst,
}
use camannex.Base.Int.{pos}
use camannex.Base.Real.{Real}

module _ (real : Real) where
  open real use {R, add, mul, of_int}

  abbrev pub item : List R → ℕ → R
  item xs i = get_or xs i (of_int (pos 0))

  -- `for (k = 0, p = B + i; k < L; ++k, p += N) q0[k] = *p`
  unfoldable pub column : (rounds stride p : ℕ) → List R → List R
  column zero stride p b = []
  column (suc rounds) stride p b = item b p ∷ column rounds stride (p + stride) b

  -- `for (k = 0, z = 0.; k < L; ++k, ++p) z += *p * q0[k]`
  unfoldable pub dot : (p : ℕ) → (a q0 : List R) → R → R
  dot p a [] z = z
  dot p a (x ∷ q0) z = dot (p + 1) a q0 (add z (mul (item a p) x))

  -- The loop over j, so many rounds.
  unfoldable pub mult_column : (rounds l stride p q : ℕ) → (a q0 rm : List R) → List R
  unfolding dot
  mult_column zero l stride p q a q0 rm = rm
  mult_column (suc rounds) l stride p q a q0 rm =
      mult_column rounds l stride (p + l) (q + stride) a q0 (set rm q (dot p a q0 (of_int (pos 0))))

  -- The loop over i, so many rounds.
  unfoldable pub mult_columns : (rounds m l n i : ℕ) → (a b rm : List R) → List R
  unfolding column mult_column
  mult_columns zero m l n i a b rm = rm
  mult_columns (suc rounds) m l n i a b rm =
      mult_columns rounds m l n (i + 1) a b (mult_column m l n 0 i a (column l n i b) rm)

  -- MatRealMult, for a matrix of m rows and l columns and one of l rows and n columns.
  unfoldable pub mat_real_mult : (m l n : ℕ) → (a b rm : List R) → List R
  unfolding mult_columns
  mat_real_mult m l n a b rm = mult_columns n m l n 0 a b rm

  -- The sum of the products along a row from `p` on and a column from `r` on.
  unfoldable pub row_by_column : (l n p r : ℕ) → (a b : List R) → R → R
  row_by_column zero n p r a b z = z
  row_by_column (suc l) n p r a b z =
      row_by_column l n (p + 1) (r + n) a b (add z (mul (item a p) (item b r)))

  dot-column :
      (l n p r : ℕ) (a b : List R) (z : R)
      → dot p a (column l n r b) z ≡ row_by_column l n p r a b z
  unfolding dot column row_by_column
  dot-column zero n p r a b z = refl
  dot-column (suc l) n p r a b z =
      dot-column l n (p + 1) (r + n) a b (add z (mul (item a p) (item b r)))

  length-mult_column :
      (m l n p q : ℕ) (a q0 rm : List R) → length (mult_column m l n p q a q0 rm) ≡ length rm
  unfolding mult_column
  length-mult_column zero l n p q a q0 rm = refl
  length-mult_column (suc m) l n p q a q0 rm =
      length-mult_column m l n (p + l) (q + n) a q0 _
      ∙ length-set rm q (dot p a q0 (of_int (pos 0)))

  -- A column leaves what stands in none of its places.
  mult_column_outside :
      (m l n p q k : ℕ) (a q0 rm : List R)
      → ((j : ℕ) → j < m → q + j * n < length rm)
      → ((j : ℕ) → j < m → k ≢ q + j * n)
      → item (mult_column m l n p q a q0 rm) k ≡ item rm k
  unfolding mult_column
  mult_column_outside zero l n p q k a q0 rm fits other = refl
  mult_column_outside (suc m) l n p q k a q0 rm fits other =
      let rm1 = set rm q (dot p a q0 (of_int (pos 0))) in
      let here : q < length rm = omega (arith, fits 0 (omega arith)) in
      let ne : q ≢ k = λ e. other 0 (omega arith) (omega arith) in
      mult_column_outside m l n (p + l) (q + n) k a q0 rm1
        (λ j h. omega (
          arith,
          fits (suc j) (omega arith),
          suc-mul j n,
          length-set rm q (dot p a q0 (of_int (pos 0))),
        ))
        (λ j h e. other (suc j) (omega arith) (omega (arith, suc-mul j n)))
      ∙ ground (arith, get_or-set rm q k (dot p a q0 (of_int (pos 0))) (of_int (pos 0)) here)

  mult_column_inside :
      (m l n p q j : ℕ) (a q0 rm : List R)
      → 0 < n
      → ((j : ℕ) → j < m → q + j * n < length rm)
      → j < m
      → item (mult_column m l n p q a q0 rm) (q + j * n) ≡ dot (p + j * l) a q0 (of_int (pos 0))
  unfolding mult_column
  mult_column_inside zero l n p q j a q0 rm wide fits h = absurd (omega arith)
  mult_column_inside (suc m) l n p q zero a q0 rm wide fits h =
      let v = dot p a q0 (of_int (pos 0)) in
      let here : q < length rm = omega (arith, fits 0 (omega arith)) in
      let (x, y) : (q + 0 * n ≡ q) × (p + 0 * l ≡ p) = omega arith in
      rw (x, y)
        (mult_column_outside m l n (p + l) (q + n) q a q0 (set rm q v)
            (λ j h. omega (arith, fits (suc j) (omega arith), suc-mul j n, length-set rm q v))
            (λ j h e. absurd (omega arith))
          ∙ ground (arith, get_or-set rm q q v (of_int (pos 0)) here))
  mult_column_inside (suc m) l n p q (suc j) a q0 rm wide fits h =
      let v = dot p a q0 (of_int (pos 0)) in
      let (x, y) : (q + suc j * n ≡ q + n + j * n) × (p + suc j * l ≡ p + l + j * l) =
        omega (arith, suc-mul j n, suc-mul j l) in
      rw (x, y)
        (mult_column_inside m l n (p + l) (q + n) j a q0 (set rm q v) wide
          (λ j h. omega (arith, fits (suc j) (omega arith), suc-mul j n, length-set rm q v))
          (omega arith))

  mul_step : (j k n : ℕ) → j < k → j * n + n ≤ k * n
  mul_step j zero n h = absurd (omega arith)
  mul_step j (suc k) n h = elim (dec_lt j k) [
    | yes lt ↦ omega (arith, mul_step j k n lt, suc-mul k n)
    | no ge ↦ let e : j ≡ k = omega arith in rw e (omega (arith, suc-mul k n))
  ]

  -- Places of different columns differ.
  places_ne : (x y j k n : ℕ) → x < y → y < n → x + j * n ≢ y + k * n
  places_ne x y j k n h w e = elim (dec_lt j k) [
    | yes lt ↦ absurd (omega (arith, mul_step j k n lt))
    | no ge ↦ elim (dec_lt k j) [
      | yes gt ↦ absurd (omega (arith, mul_step k j n gt))
      | no le ↦ let same : j ≡ k = omega arith in absurd (omega (arith, ap (λ z. z * n) same))
    ]
  ]

  fits_all :
      (m n i : ℕ) (rm : List R)
      → m * n ≤ length rm
      → i < n
      → (j : ℕ) → j < m
      → i + j * n < length rm
  fits_all m n i rm fits h j g = omega (arith, mul_step j m n g)

  mult_columns_before :
      (c m l n i x j : ℕ) (a b rm : List R)
      → i + c ≤ n
      → m * n ≤ length rm
      → x < i
      → item (mult_columns c m l n i a b rm) (x + j * n) ≡ item rm (x + j * n)
  unfolding mult_columns
  mult_columns_before zero m l n i x j a b rm wide fits h = refl
  mult_columns_before (suc c) m l n i x j a b rm wide fits h =
      let q0 = column l n i b in
      mult_columns_before c m l n (i + 1) x j a b (mult_column m l n 0 i a q0 rm) (omega arith)
        (omega (arith, length-mult_column m l n 0 i a q0 rm)) (omega arith)
      ∙ mult_column_outside m l n 0 i (x + j * n) a q0 rm (fits_all m n i rm fits (omega arith))
          (λ k g. places_ne x i j k n h (omega arith))

  mult_columns_inside :
      (c m l n i x j : ℕ) (a b rm : List R)
      → i + c ≤ n
      → m * n ≤ length rm
      → x < c
      → j < m
      → item (mult_columns c m l n i a b rm) (i + x + j * n)
        ≡ row_by_column l n (j * l) (i + x) a b (of_int (pos 0))
  unfolding mult_columns
  mult_columns_inside zero m l n i x j a b rm wide fits h g = absurd (omega arith)
  mult_columns_inside (suc c) m l n i zero j a b rm wide fits h g =
      let q0 = column l n i b in
      let zeros : (i + 0 ≡ i) × (0 + j * l ≡ j * l) = omega arith in
      rw (zeros.0) (
        mult_columns_before c m l n (i + 1) i j a b (mult_column m l n 0 i a q0 rm) (omega arith)
          (omega (arith, length-mult_column m l n 0 i a q0 rm)) (omega arith)
        ∙ (mult_column_inside m l n 0 i j a q0 rm (omega arith)
              (fits_all m n i rm fits (omega arith)) g
            ∙ (rw (zeros.1) (dot-column l n (j * l) i a b (of_int (pos 0))))))
  mult_columns_inside (suc c) m l n i (suc x) j a b rm wide fits h g =
      let e : i + suc x ≡ i + 1 + x = omega arith in
      rw e (
        mult_columns_inside c m l n (i + 1) x j a b (mult_column m l n 0 i a (column l n i b) rm)
          (omega arith) (omega (arith, length-mult_column m l n 0 i a (column l n i b) rm))
          (omega arith) g)

  -- The element of the product in row j and column i is the sum, from zero and from left to right, of
  -- the products of row j of the first matrix with column i of the second.
  pub mat_real_mult-row_by_column :
      (m l n i j : ℕ) (a b rm : List R)
      → m * n ≤ length rm
      → i < n
      → j < m
      → item (mat_real_mult m l n a b rm) (i + j * n)
        ≡ row_by_column l n (j * l) i a b (of_int (pos 0))
  unfolding mat_real_mult
  mat_real_mult-row_by_column m l n i j a b rm fits h g =
      let e : 0 + i ≡ i = omega arith in
      subst
        (λ o.
          item (mult_columns n m l n 0 a b rm) (o + j * n)
          ≡ row_by_column l n (j * l) o a b (of_int (pos 0)))
        e (mult_columns_inside n m l n 0 i j a b rm (omega arith) fits h g)
