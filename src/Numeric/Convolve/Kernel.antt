-- ===== src/Numeric/Convolve/Kernel.antt =====
-- What MakeKernel leaves in the kernel, and that a kernel keeps its size.
use camannex.Base.{
  ℕ, zero, suc, ◌+◌, ◌-◌, ◌*◌, ◌/◌, ◌%◌, ◌<◌, ◌≤◌, ◌≡◌, refl, sym, ◌∙◌, ap, List, some, length, set,
  get_elem?-eq-get_or, arith, inr, subst,
}
use native.Mathlib.Nat.{suc-mul}
use camannex.Base.Int.{pos}
use camannex.Base.Real.{Real, Libm}
use camannex.Numeric.Convolve.Window.{row_fits}
use camannex.Numeric.Convolve.{weight, fill_row, fill_rows, scale_row, scale_rows, make_kernel}
use camannex.Numeric.Convolve.Writes.{
  row_of, cell, Writes, Writes-none, Writes-one, Writes-trans, store-some,
}

module _ (real : Real) (libm : Libm real.R) where
  open real use {R, add, div, of_int}

  module _ (xcen ycen : ℕ) (fract : R) where
    -- The sum of the weights of a row, and of all rows.
    abbrev pub row_weight : (columns x y : ℕ) → R → R
    row_weight zero x y sum = sum
    row_weight (suc n) x y sum =
        row_weight n (x + 1) y (add sum (weight real libm xcen ycen fract x y))

    abbrev pub all_weight : (rows w y : ℕ) → R → R
    all_weight zero w y sum = sum
    all_weight (suc n) w y sum = all_weight n w (y + 1) (row_weight w 0 y sum)

    fill_row-Writes :
        (n ptr x y : ℕ) (sum : R) (k : List R)
        → ptr + x + n ≤ length k
        → (k' : List R) × (fill_row real libm n xcen ycen fract ptr x y sum k
            ≡ some (row_weight n x y sum, k'))
          × Writes real libm (ptr + x) n (λ m. weight real libm xcen ycen fract (m - ptr) y) k k'
    unfolding fill_row
    fill_row-Writes zero ptr x y sum k h = (k, refl, Writes-none real libm (ptr + x) _ k)
    fill_row-Writes (suc n) ptr x y sum k h =
        let f = λ (m : ℕ). weight real libm xcen ycen fract (m - ptr) y in
        let v = weight real libm xcen ycen fract x y in
        let k1 = set k (ptr + x) v in
        let (here, back) : (ptr + x < length k) × (ptr + x - ptr ≡ x) = omega arith in
        let one = Writes-one real libm (ptr + x) f v k here (rw back refl) in
        let next : ptr + (x + 1) ≡ ptr + x + 1 = omega arith in
        let count : 1 + n ≡ suc n = omega arith in
        let r = fill_row-Writes n ptr (x + 1) y (add sum v) k1 (omega (arith, one.same_length)) in
        (
          r.0,
          rw (store-some real libm (ptr + x) v k here) r.1,
          subst (λ c. Writes real libm (ptr + x) c f k r.0) count
              (Writes-trans real libm (ptr + x) 1 n f f k k1 r.0 one
                (subst (λ s. Writes real libm s n f k1 r.0) next r.2) (λ m a b. refl)),
        )

    -- The weight at a position of the kernel, whose rows have `w` cells.
    abbrev pub weight_at : (w m : ℕ) → R
    weight_at w m = weight real libm xcen ycen fract (m % w) (m / w)

    row_as_positions :
        (w y : ℕ) (k k' : List R)
        → Writes real libm (y * w) w (λ m. weight real libm xcen ycen fract (m - y * w) y) k k'
        → Writes real libm (y * w) w (weight_at w) k k'
    row_as_positions w y k k' v = record {
      same_length = v.same_length;
      inside = λ m a b. let (col, row) = row_of m w y a b in v.inside m a b ∙ rw (col, row) refl;
      outside = v.outside;
    }

    fill_rows-Writes :
        (n w y : ℕ) (sum : R) (k : List R)
        → y * w + n * w ≤ length k
        → (k' : List R) × (fill_rows real libm n w xcen ycen fract (y * w) y sum k
            ≡ some (all_weight n w y sum, k'))
          × Writes real libm (y * w) (n * w) (weight_at w) k k'
    unfolding fill_rows
    fill_rows-Writes zero w y sum k h =
        let none_of : 0 * w ≡ 0 = omega arith in
        (k, refl, rw none_of (Writes-none real libm (y * w) _ k))
    fill_rows-Writes (suc n) w y sum k h =
        let (next, count, fits, start) : (y * w + w ≡ (y + 1) * w)
            × (w + n * w ≡ suc n * w)
            × (y * w + 0 + w ≤ length k)
            × (y * w + 0 ≡ y * w) =
          omega (arith, suc-mul y w, suc-mul n w) in
        let f = λ (m : ℕ). weight real libm xcen ycen fract (m - y * w) y in
        let row = fill_row-Writes w (y * w) 0 y sum k fits in
        let first : Writes real libm (y * w) w f k row.0 =
          subst (λ s. Writes real libm s w f k row.0) start row.2 in
        let rest =
          fill_rows-Writes n w (y + 1) (row_weight w 0 y sum) row.0
            (omega (arith, first.same_length, suc-mul n w)) in
        (
          rest.0,
          rw (row.1, next) rest.1,
          subst (λ c. Writes real libm (y * w) c (weight_at w) k rest.0) count
              (Writes-trans real libm (y * w) w (n * w) (weight_at w) (weight_at w) k row.0 rest.0
                (row_as_positions w y k row.0 first)
                (subst (λ s. Writes real libm s (n * w) (weight_at w) row.0 rest.0) (sym next)
                  rest.2)
                (λ m a b. refl)),
        )

  scale_row-Writes :
      (n ptr x : ℕ) (sum : R) (k : List R)
      → ptr + x + n ≤ length k
      → (k' : List R) × (scale_row real libm n ptr x sum k ≡ some k')
        × Writes real libm (ptr + x) n (λ m. div (cell real libm k m) sum) k k'
  unfolding scale_row
  scale_row-Writes zero ptr x sum k h = (k, refl, Writes-none real libm (ptr + x) _ k)
  scale_row-Writes (suc n) ptr x sum k h =
      let f = λ (m : ℕ). div (cell real libm k m) sum in
      let v = div (cell real libm k (ptr + x)) sum in
      let k1 = set k (ptr + x) v in
      let here : ptr + x < length k = omega arith in
      let one = Writes-one real libm (ptr + x) f v k here refl in
      let next : ptr + (x + 1) ≡ ptr + x + 1 = omega arith in
      let count : 1 + n ≡ suc n = omega arith in
      let other : (m : ℕ) → ptr + x + 1 ≤ m → cell real libm k1 m ≡ cell real libm k m =
        λ m a. one.outside m (inr a) in
      let r = scale_row-Writes n ptr (x + 1) sum k1 (omega (arith, one.same_length)) in
      (
        r.0,
        rw
            (
              get_elem?-eq-get_or k (ptr + x) (of_int (pos 0)) here,
              store-some real libm (ptr + x) v k here,
            )
            r.1,
        subst (λ c. Writes real libm (ptr + x) c f k r.0) count
            (Writes-trans real libm (ptr + x) 1 n f (λ m. div (cell real libm k1 m) sum) k k1 r.0
              one
              (subst (λ s. Writes real libm s n (λ m. div (cell real libm k1 m) sum) k1 r.0) next
                r.2)
              (λ m a b. ap (λ c. div c sum) (other m a))),
      )

  scale_rows-Writes :
      (n w ptr : ℕ) (sum : R) (k : List R)
      → ptr + n * w ≤ length k
      → (k' : List R) × (scale_rows real libm n w ptr sum k ≡ some k')
        × Writes real libm ptr (n * w) (λ m. div (cell real libm k m) sum) k k'
  unfolding scale_rows
  scale_rows-Writes zero w ptr sum k h =
      let none_of : 0 * w ≡ 0 = omega arith in (k, refl, rw none_of (Writes-none real libm ptr _ k))
  scale_rows-Writes (suc n) w ptr sum k h =
      let (count, fits, start) : (w + n * w ≡ suc n * w)
          × (ptr + 0 + w ≤ length k)
          × (ptr + 0 ≡ ptr) =
        omega (arith, suc-mul n w) in
      let f = λ (m : ℕ). div (cell real libm k m) sum in
      let row = scale_row-Writes w ptr 0 sum k fits in
      let first : Writes real libm ptr w f k row.0 =
        subst (λ s. Writes real libm s w f k row.0) start row.2 in
      let other : (m : ℕ) → ptr + w ≤ m → cell real libm row.0 m ≡ cell real libm k m =
        λ m a. first.outside m (inr a) in
      let rest =
        scale_rows-Writes n w (ptr + w) sum row.0 (omega (arith, first.same_length, suc-mul n w)) in
      (
        rest.0,
        rw row.1 rest.1,
        subst (λ c. Writes real libm ptr c f k rest.0) count
            (Writes-trans real libm ptr w (n * w) f (λ m. div (cell real libm row.0 m) sum) k row.0
              rest.0 first rest.2 (λ m a b. ap (λ c. div c sum) (other m a))),
      )

  -- A kernel of so many columns and rows: each cell is its weight, divided by the sum of all weights.
  pub record IsGaussian (w h : ℕ) (fract : R) (kernel : List R) : Type 0 where
    pub whole : length kernel ≡ h * w
    pub cells :
        (i j : ℕ)
        → i < h
        → j < w
        → cell real libm kernel (i * w + j)
          ≡ div
              (weight real libm (w / 2) (h / 2) fract j i)
              (all_weight (w / 2) (h / 2) fract h w 0 (of_int (pos 0)))

  pub make_kernel-IsGaussian :
      (w h : ℕ) (fract : R) (k : List R)
      → length k ≡ h * w
      → (k' : List R) × (make_kernel real libm w h fract k ≡ some k') × IsGaussian w h fract k'
  unfolding make_kernel
  make_kernel-IsGaussian w h fract k all =
      let (fits, start) : (0 * w + h * w ≤ length k) × (0 * w ≡ 0) = omega (arith) in
      let zero_sum = of_int (pos 0) in
      let filled = fill_rows-Writes (w / 2) (h / 2) fract h w 0 zero_sum k fits in
      let f = filled.2 in
      let total = all_weight (w / 2) (h / 2) fract h w 0 zero_sum in
      let fits' : 0 + h * w ≤ length filled.0 = omega (arith, f.same_length) in
      let scaled = scale_rows-Writes h w 0 total filled.0 fits' in
      let s = scaled.2 in
      let made : fill_rows real libm h w (w / 2) (h / 2) fract 0 0 zero_sum k
          ≡ some (total, filled.0) =
        subst
          (λ p.
            fill_rows real libm h w (w / 2) (h / 2) fract p 0 zero_sum k ≡ some (total, filled.0))
          start filled.1 in
      (
        scaled.0,
        rw made scaled.1,
        record {
          whole = s.same_length ∙ (f.same_length ∙ all);
          cells = λ i j a b.
              let (lo, hi, below, lo', hi') : (i * w ≤ i * w + j)
                  × (i * w + j < i * w + w)
                  × (i * w + j < 0 + h * w)
                  × (0 * w ≤ i * w + j)
                  × (i * w + j < 0 * w + h * w) =
                omega (arith, row_fits i h w a) in
              let (col, row) = row_of (i * w + j) w i lo hi in
              let back : i * w + j - i * w ≡ j = omega arith in
              s.inside (i * w + j) (omega arith) below
              ∙ ap (λ c. div c total) (f.inside (i * w + j) lo' hi' ∙ rw (col, row, back) refl);
        },
      )
