-- ===== src/Numeric/Convolve.antt =====
-- gauss2_convolve and gauss_std_convolve of src/AMath.h: a kernel, and the weighted sum of an image
-- under it. The kernel is the list of its cells, row behind row; `none` is an access outside an array.
pub mod Kernel
pub mod Sizes
pub mod Window
pub mod Writes
pub mod Tests
use camannex.Base.{
  ℕ, zero, suc, ◌+◌, ◌-◌, ◌*◌, ◌/◌, List, [], Bool, true, false, ◌||◌, ◌&&◌, not, Option, none,
  some, ltb, leb, ◌==◌, if◌then◌else◌, ◌>>=◌, length, get_elem?, set, replicate,
}
use camannex.Base.Int.{ℤ, pos, negsuc, sub_ℕ}
use camannex.Base.Real.{Real, Libm}
use camannex.Numeric.Interpolation.{fabs}

module _ (real : Real) (libm : Libm real.R) where
  open real use {R, add, sub, mul, div, neg, of_int, trunc, literal, ltb as lt, eqb}

  -- `ptr[i] = v`
  unfoldable pub store : ℕ → R → List R → Option (List R)
  store i v xs = if ltb i (length xs) then some (set xs i v) else none

  -- `(x - xcen) * (x - xcen)`, as a double
  abbrev pub square_of : ℕ → ℕ → R
  square_of x cen = let apart = (x - cen) + (cen - x) in of_int (pos (apart * apart))

  -- `exp(-(dx + dy) / fract)`
  abbrev pub weight : (xcen ycen : ℕ) → R → (x y : ℕ) → R
  weight xcen ycen fract x y =
      libm.exp (div (neg (add (square_of x xcen) (square_of y ycen))) fract)

  -- The inner loop, so many rounds, with the sum.
  unfoldable pub fill_row :
      (rounds xcen ycen : ℕ) → R → (ptr x y : ℕ) → R → List R → Option (R × List R)
  fill_row zero xcen ycen fract ptr x y sum kernel = some (sum, kernel)
  fill_row (suc n) xcen ycen fract ptr x y sum kernel =
      let val = weight xcen ycen fract x y in
      store (ptr + x) val kernel >>= fill_row n xcen ycen fract ptr (x + 1) y (add sum val)

  -- The outer loop.
  unfoldable pub fill_rows :
      (rounds w xcen ycen : ℕ) → R → (ptr y : ℕ) → R → List R → Option (R × List R)
  fill_rows zero w xcen ycen fract ptr y sum kernel = some (sum, kernel)
  fill_rows (suc n) w xcen ycen fract ptr y sum kernel =
      fill_row w xcen ycen fract ptr 0 y sum kernel >>= λ r.
      fill_rows n w xcen ycen fract (ptr + w) (y + 1) r.0 r.1

  -- `for (x = 0; x < wSize; ++x) ptr[x] /= sum`
  unfoldable pub scale_row : (rounds ptr x : ℕ) → R → List R → Option (List R)
  scale_row zero ptr x sum kernel = some kernel
  scale_row (suc n) ptr x sum kernel = get_elem? kernel (ptr + x) >>= λ c.
      store (ptr + x) (div c sum) kernel >>= scale_row n ptr (x + 1) sum

  unfoldable pub scale_rows : (rounds w ptr : ℕ) → R → List R → Option (List R)
  scale_rows zero w ptr sum kernel = some kernel
  scale_rows (suc n) w ptr sum kernel =
      scale_row w ptr 0 sum kernel >>= scale_rows n w (ptr + w) sum

  -- MakeKernel of a kernel of so many columns and rows.
  unfoldable pub make_kernel : (w h : ℕ) → R → List R → Option (List R)
  make_kernel w h fract kernel =
      fill_rows h w (w / 2) (h / 2) fract 0 0 (of_int (pos 0)) kernel >>= λ r.
      scale_rows h w 0 r.0 r.1

  -- gauss2_convolve
  pub record Gauss2 : Type 0 where
    pub sigmax : R
    pub sigmay : R
    pub w_size : ℕ
    pub h_size : ℕ
    pub kernel : List R

  -- `((int) (3.5 * sigma)) * 2 + 1`. A negative deviation is outside the model.
  unfoldable pub size_of : R → Option ℕ
  size_of sigma = elim (trunc (mul (literal 35 1) sigma)) [
    | pos n ↦ some (n * 2 + 1)
    | negsuc n ↦ none
  ]

  -- MakeKernel of gauss2_convolve
  unfoldable pub make_gauss2_kernel : Gauss2 → Option Gauss2
  make_gauss2_kernel g =
      let fract = mul (mul (of_int (pos 2)) g.sigmax) g.sigmay in
      make_kernel g.w_size g.h_size fract g.kernel >>= λ k. some (record g { kernel = k })

  -- The constructor. `junk` is what new memory holds.
  unfoldable pub new_gauss2 : R → R → R → Option Gauss2
  new_gauss2 junk sigmax sigmay = do
    w ← size_of sigmax
    h ← size_of sigmay
    make_gauss2_kernel (record {
      sigmax = sigmax;
      sigmay = sigmay;
      w_size = w;
      h_size = h;
      kernel = replicate (w * h) junk;
    })

  -- The part of NewKernel that makes the kernel anew.
  unfoldable pub renew : R → R → R → Gauss2 → Option Gauss2
  renew junk sigmax sigmay g = do
    w ← size_of sigmax
    h ← size_of sigmay
    make_gauss2_kernel (record {
      sigmax = sigmax;
      sigmay = sigmay;
      w_size = w;
      h_size = h;
      kernel = if not (g.w_size * g.h_size == w * h) then replicate (w * h) junk else g.kernel;
    })

  -- NewKernel of gauss2_convolve
  unfoldable pub new_kernel : R → R → R → Gauss2 → Option (Gauss2 × Bool)
  new_kernel junk sigmax sigmay g =
      let near = λ (a b : R). lt (fabs real (sub a b)) (literal 1 6) in
      let renewed : Option (Gauss2 × Bool) =
        renew junk sigmax sigmay g >>= λ made. some (made, true) in
      if near g.sigmax sigmax && near g.sigmay sigmay then some (g, true) else renewed

  -- gauss_std_convolve
  pub record GaussStd : Type 0 where
    pub width : ℕ
    pub sigma : R
    pub square : List R

  -- MakeKernel of gauss_std_convolve
  unfoldable pub make_std_kernel : GaussStd → Option GaussStd
  make_std_kernel g =
      let fract = mul (mul (of_int (pos 2)) g.sigma) g.sigma in
      make_kernel g.width g.width fract g.square >>= λ k. some (record g { square = k })

  -- `wSize / 2 * 2 + 1`, and 3 if that is less.
  unfoldable pub odd_width : ℤ → ℕ
  odd_width (pos n) = let odd = n / 2 * 2 + 1 in if ltb odd 3 then 3 else odd
  odd_width (negsuc n) = 3

  -- The constructor
  unfoldable pub new_gauss_std : R → ℤ → R → Option GaussStd
  new_gauss_std junk size sigma =
      let w = odd_width size in
      let deviation = if lt sigma (literal 1 1) then literal 1 1 else sigma in
      make_std_kernel (record { width = w; sigma = deviation; square = replicate (w * w) junk })

  -- NewKernel of gauss_std_convolve
  unfoldable pub new_std_kernel : R → ℤ → R → GaussStd → Option (GaussStd × Bool)
  new_std_kernel junk (negsuc size) sigma g = some (g, false)
  new_std_kernel junk (pos size) sigma g =
      let newsize = size / 2 * 2 + 1 in
      let memory =
        if not (newsize == g.width) then replicate (newsize * newsize) junk else g.square in
      let renewed : Option (GaussStd × Bool) =
        make_std_kernel (record { width = newsize; sigma = sigma; square = memory }) >>= λ made.
        some (made, true) in
      if ltb size 3 || lt sigma (literal 1 1)
      then some (g, false)
      else if size == g.width && eqb sigma g.sigma
      then some (g, true)
      else renewed
