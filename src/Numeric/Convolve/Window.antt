-- ===== src/Numeric/Convolve/Window.antt =====
-- Convolve of src/AMath.h: the weighted sum of the image in the window about a point.
use camannex.Base.{
  ℕ, zero, suc, ◌+◌, ◌-◌, ◌*◌, ◌/◌, ◌%◌, ◌<◌, ◌≤◌, ◌≡◌, refl, List, Bool, true, false, ◌||◌, ◌&&◌,
  Option, some, ltb, leb, if◌then◌else◌, ◌>>=◌, length, get_elem?, get_or, get_elem?-eq-get_or,
  arith, Bool-cases, inl, inr,
}
use native.Mathlib.Nat.{suc-mul}
use camannex.Base.Int.{ℤ, pos, negsuc, pos_part}
use camannex.Base.Real.{Real, Libm}
use camannex.Numeric.Convolve.{GaussStd}

-- A row ends within the array.
pub row_fits : (i n w : ℕ) → i < n → i * w + w ≤ n * w
row_fits i zero w h = absurd (omega arith)
row_fits zero (suc n) w h = omega (arith, suc-mul n w)
row_fits (suc i) (suc n) w h = omega (arith, suc-mul n w, suc-mul i w, row_fits i n w (omega arith))

-- An element of the image becomes a double, and the sum an element.
module _ (real : Real) {D : Type 0} (widen : D → real.R) (narrow : real.R → D) where
  open real use {R, add, mul, of_int}

  -- The inner loop of Convolve, so many rounds.
  unfoldable pub convolve_row : (rounds dptr x kptr xpos : ℕ) → List D → List R → R → Option R
  convolve_row zero dptr x kptr xpos data' kernel sum = some sum
  convolve_row (suc n) dptr x kptr xpos data' kernel sum = get_elem? data' (dptr + x) >>= λ v.
      get_elem? kernel (kptr + xpos) >>= λ c.
      convolve_row n dptr (x + 1) kptr (xpos + 1) data' kernel (add sum (mul (widen v) c))

  -- The outer loop, with the widths of the image and of the kernel.
  unfoldable pub convolve_rows :
      (rounds columns w_data w_size dptr xmin kptr : ℕ) → List D → List R → R → Option R
  convolve_rows zero columns w_data w_size dptr xmin kptr data' kernel sum = some sum
  convolve_rows (suc n) columns w_data w_size dptr xmin kptr data' kernel sum =
      convolve_row columns dptr xmin kptr 0 data' kernel sum
      >>= convolve_rows n columns w_data w_size (dptr + w_data) xmin (kptr + w_size) data' kernel

  -- Convolve of a kernel of so many columns and rows, at a point.
  unfoldable pub convolve :
      (w_size h_size : ℕ) → List R → List D → (w_data h_data : ℕ) → ℤ → ℤ → Option D
  convolve w_size h_size kernel data' w_data h_data (negsuc x) y0 = some (narrow (of_int (pos 0)))
  convolve w_size h_size kernel data' w_data h_data (pos x) (negsuc y) =
      some (narrow (of_int (pos 0)))
  convolve w_size h_size kernel data' w_data h_data (pos x0) (pos y0) =
      let w_half = w_size / 2 in
      let h_half = h_size / 2 in
      let outside =
        ltb x0 w_half || leb w_data (x0 + w_half) || ltb y0 h_half || leb h_data (y0 + h_half) in
      let ymin = y0 - h_half in
      let xmin = x0 - w_half in
      let sum =
        convolve_rows (y0 + h_half + 1 - ymin) (x0 + w_half + 1 - xmin) w_data w_size
          (ymin * w_data) xmin 0 data' kernel (of_int (pos 0)) in
      if outside then some (narrow (of_int (pos 0))) else sum >>= λ s. some (narrow s)

  -- Convolve of gauss_std_convolve, which has the same text for one width.
  unfoldable pub convolve_std :
      (libm : Libm R) → GaussStd real libm → List D → (w_data h_data : ℕ) → ℤ → ℤ → Option D
  unfolding convolve
  convolve_std libm g data' w_data h_data x0 y0 =
      convolve g.width g.width g.square data' w_data h_data x0 y0

  -- The same sum by rows and columns: the element of the image in row `ymin + i` and column `xmin + j`
  -- times the cell of the kernel in row `i` and column `j`.
  module _ (data' : List D) (kernel : List R) (w_data w_size xmin ymin : ℕ) (d : D) where
    abbrev pub product : (i j : ℕ) → R
    product i j =
        mul (widen (get_or data' ((ymin + i) * w_data + (xmin + j)) d))
          (get_or kernel (i * w_size + j) (of_int (pos 0)))

    abbrev pub row_total : (columns i j : ℕ) → R → R
    row_total zero i j sum = sum
    row_total (suc n) i j sum = row_total n i (j + 1) (add sum (product i j))

    abbrev pub total : (rows columns i : ℕ) → R → R
    total zero columns i sum = sum
    total (suc n) columns i sum = total n columns (i + 1) (row_total columns i 0 sum)

    convolve_row-row_total :
        (n i j : ℕ) (sum : R)
        → xmin + j + n ≤ w_data
        → j + n ≤ w_size
        → (ymin + i) * w_data + w_data ≤ length data'
        → i * w_size + w_size ≤ length kernel
        → convolve_row n ((ymin + i) * w_data) (xmin + j) (i * w_size) j data' kernel sum
          ≡ some (row_total n i j sum)
    unfolding convolve_row
    convolve_row-row_total zero i j sum a b c e = refl
    convolve_row-row_total (suc n) i j sum a b c e =
        let next : xmin + j + 1 ≡ xmin + (j + 1) = omega arith in
        rw
          (
            get_elem?-eq-get_or data' ((ymin + i) * w_data + (xmin + j)) d (omega arith),
            get_elem?-eq-get_or kernel (i * w_size + j) (of_int (pos 0)) (omega arith),
            next,
          )
          (convolve_row-row_total n i (j + 1) (add sum (product i j)) (omega arith) (omega arith) c
            e)

    convolve_rows-total :
        (n columns i h_data h_size : ℕ) (sum : R)
        → xmin + columns ≤ w_data
        → columns ≤ w_size
        → ymin + i + n ≤ h_data
        → i + n ≤ h_size
        → length data' ≡ h_data * w_data
        → length kernel ≡ h_size * w_size
        → convolve_rows n columns w_data w_size
            ((ymin + i) * w_data)
            xmin
            (i * w_size)
            data'
            kernel
            sum
          ≡ some (total n columns i sum)
    unfolding convolve_rows
    convolve_rows-total zero columns i h_data h_size sum a b c e f g = refl
    convolve_rows-total (suc n) columns i h_data h_size sum a b c e f g =
        let (x, y) : ((ymin + i) * w_data + w_data ≡ (ymin + (i + 1)) * w_data)
            × (i * w_size + w_size ≡ (i + 1) * w_size) =
          omega (arith, suc-mul (ymin + i) w_data, suc-mul i w_size) in
        let (p, q) : ((ymin + i) * w_data + w_data ≤ length data')
            × (i * w_size + w_size ≤ length kernel) =
          omega (
            arith,
            row_fits (ymin + i) h_data w_data (omega arith),
            row_fits i h_size w_size (omega arith),
          ) in
        let start : xmin + 0 ≡ xmin = omega arith in
        let row = convolve_row-row_total columns i 0 sum (omega arith) (omega arith) p q in
        let row' : convolve_row columns ((ymin + i) * w_data) xmin (i * w_size) 0 data' kernel sum
            ≡ some (row_total columns i 0 sum) =
          rw start at row in
        rw (row', x, y)
          (convolve_rows-total n columns (i + 1) h_data h_size (row_total columns i 0 sum) a b
            (omega arith) (omega arith) f g)

  -- The window about the point lies in the image.
  abbrev fits_at : (w_size h_size w_data h_data x0 y0 : ℕ) → Bool
  fits_at w_size h_size w_data h_data x0 y0 =
      (leb (w_size / 2) x0 && ltb (x0 + w_size / 2) w_data)
      && (leb (h_size / 2) y0 && ltb (y0 + h_size / 2) h_data)

  abbrev pub fits_window : (w_size h_size w_data h_data : ℕ) → (x0 y0 : ℤ) → Bool
  fits_window w_size h_size w_data h_data (pos x0) (pos y0) =
      fits_at w_size h_size w_data h_data x0 y0
  fits_window w_size h_size w_data h_data (pos x0) (negsuc y0) = false
  fits_window w_size h_size w_data h_data (negsuc x0) y0 = false

  -- At a point that is not negative.
  convolve-total_at :
      (w_size h_size : ℕ) (kernel : List R) (data' : List D) (w_data h_data x0 y0 : ℕ) (d : D)
      → w_size % 2 ≡ 1
      → h_size % 2 ≡ 1
      → length kernel ≡ h_size * w_size
      → length data' ≡ h_data * w_data
      → convolve w_size h_size kernel data' w_data h_data (pos x0) (pos y0)
        ≡ some (
            narrow (
              if fits_at w_size h_size w_data h_data x0 y0
              then total data' kernel w_data w_size
                  (x0 - w_size / 2)
                  (y0 - h_size / 2)
                  d
                  h_size
                  w_size
                  0
                  (of_int (pos 0))
              else of_int (pos 0)))
  unfolding convolve
  convolve-total_at w_size h_size kernel data' w_data h_data x0 y0 d odd odd' cells image =
      elim (Bool-cases (fits_at w_size h_size w_data h_data x0 y0)) [
        | inr out ↦
            let refused : (ltb x0 (w_size / 2)
                  || leb w_data (x0 + w_size / 2)
                  || ltb y0 (h_size / 2)
                  || leb h_data (y0 + h_size / 2))
                ≡ true =
              ground arith in
            rw (out, refused) refl
        | inl inside ↦
            let taken : (ltb x0 (w_size / 2)
                  || leb w_data (x0 + w_size / 2)
                  || ltb y0 (h_size / 2)
                  || leb h_data (y0 + h_size / 2))
                ≡ false =
              ground arith in
            let (a, b, c, e) : (w_size / 2 ≤ x0)
                × (x0 + w_size / 2 < w_data)
                × (h_size / 2 ≤ y0)
                × (y0 + h_size / 2 < h_data) =
              ground arith in
            let (rows, columns, start, first) : (y0 + h_size / 2 + 1 - (y0 - h_size / 2) ≡ h_size)
                × (x0 + w_size / 2 + 1 - (x0 - w_size / 2) ≡ w_size)
                × (y0 - h_size / 2 + 0 ≡ y0 - h_size / 2)
                × (0 * w_size ≡ 0) =
              omega arith in
            let sum =
              convolve_rows-total data' kernel w_data w_size (x0 - w_size / 2) (y0 - h_size / 2) d
                h_size w_size 0 h_data h_size (of_int (pos 0)) (omega arith) (omega arith)
                (omega arith) (omega arith) image cells in
            rw (inside, taken, rows, columns, rw (start, first) at sum) refl
      ]

  -- With a kernel of odd sizes that has all its cells and an image that has all its elements, at any
  -- point, also one of negative coordinates, Convolve reads inside both. Where the window about the
  -- point lies in the image it returns the sum, row by row, of the products of the kernel's cells with
  -- the elements under them, and else zero, and not the 1E300 of its documentation.
  pub convolve-total :
      (w_size h_size : ℕ) (kernel : List R) (data' : List D) (w_data h_data : ℕ) (x0 y0 : ℤ) (d : D)
      → w_size % 2 ≡ 1
      → h_size % 2 ≡ 1
      → length kernel ≡ h_size * w_size
      → length data' ≡ h_data * w_data
      → convolve w_size h_size kernel data' w_data h_data x0 y0
        ≡ some (
            narrow (
              if fits_window w_size h_size w_data h_data x0 y0
              then total data' kernel w_data w_size
                  (pos_part x0 - w_size / 2)
                  (pos_part y0 - h_size / 2)
                  d
                  h_size
                  w_size
                  0
                  (of_int (pos 0))
              else of_int (pos 0)))
  unfolding convolve
  convolve-total w_size h_size kernel data' w_data h_data (pos x0) (pos y0) d odd odd' cells image =
      convolve-total_at w_size h_size kernel data' w_data h_data x0 y0 d odd odd' cells image
  convolve-total w_size h_size kernel data' w_data h_data (pos x0) (negsuc y0) d a b c e = refl
  convolve-total w_size h_size kernel data' w_data h_data (negsuc x0) y0 d a b c e = refl
