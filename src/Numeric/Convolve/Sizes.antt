-- ===== src/Numeric/Convolve/Sizes.antt =====
-- The kernels of the two classes: what their constructors and NewKernel leave.
use camannex.Base.{
  ℕ, ◌+◌, ◌*◌, ◌/◌, ◌%◌, ◌≡◌, refl, sym, ◌∙◌, ap, List, Bool, true, false, not, ◌||◌, ◌&&◌, none,
  some, ltb, ◌==◌, if◌then◌else◌, length, replicate, length-replicate, arith, Bool-cases, inl, inr,
}
use camannex.Base.Int.{ℤ, pos, negsuc}
use camannex.Base.Real.{Real, Libm}
use camannex.Numeric.Convolve.{
  Gauss2, GaussStd, size_of, make_gauss2_kernel, new_gauss2, renew, new_kernel, make_std_kernel,
  odd_width, new_gauss_std, new_std_kernel,
}
use camannex.Numeric.Interpolation.{fabs}
use camannex.Numeric.Convolve.Kernel.{IsGaussian, make_kernel-IsGaussian}

module _ (real : Real) (libm : Libm real.R) (junk : real.R) where
  open real use {R, mul, sub, of_int, literal, ltb as lt, eqb}

  -- Odd sizes, and the kernel of them and of the deviations.
  pub record IsKernel (g : Gauss2 real libm) : Type 0 where
    pub odd_w : g.w_size % 2 ≡ 1
    pub odd_h : g.h_size % 2 ≡ 1
    pub made :
        IsGaussian real libm g.w_size g.h_size
          (mul (mul (of_int (pos 2)) g.sigmax) g.sigmay)
          g.kernel

  size_of-odd : (sigma : R) (w : ℕ) → size_of real libm sigma ≡ some w → w % 2 ≡ 1
  unfolding size_of
  size_of-odd sigma w e =
      elim (real.trunc (mul (literal 35 1) sigma))
          as (λ z. (elim z [ pos n ↦ some (n * 2 + 1) | negsuc n ↦ none ]) ≡ some w → w % 2 ≡ 1) [
            | pos n ↦ λ h. ground arith
            | negsuc n ↦ λ h. absurd (ground arith)
          ]
        e

  make_gauss2-IsKernel :
      (sigmax sigmay : R) (w h : ℕ) (memory : List R)
      → w % 2 ≡ 1
      → h % 2 ≡ 1
      → length memory ≡ w * h
      → let g : Gauss2 real libm = record {
        sigmax = sigmax;
        sigmay = sigmay;
        w_size = w;
        h_size = h;
        kernel = memory;
      } in
        (g' : Gauss2 real libm) × (make_gauss2_kernel real libm g ≡ some g') × IsKernel g'
  unfolding make_gauss2_kernel
  make_gauss2-IsKernel sigmax sigmay w h memory a b size =
      let r =
        make_kernel-IsGaussian real libm w h (mul (mul (of_int (pos 2)) sigmax) sigmay) memory
          (omega arith) in
      (
        record { sigmax = sigmax; sigmay = sigmay; w_size = w; h_size = h; kernel = r.0 },
        rw r.1 refl,
        record { odd_w = a; odd_h = b; made = r.2 },
      )

  module _ (sigmax sigmay : R) (w h : ℕ) (is_w : size_of real libm sigmax ≡ some w)
      (is_h : size_of real libm sigmay ≡ some h) where
    -- The constructor makes a kernel of odd sizes: each cell is its weight, divided by the sum of all.
    pub new_gauss2-IsKernel :
        (g : Gauss2 real libm) × (new_gauss2 real libm junk sigmax sigmay ≡ some g) × IsKernel g
    unfolding new_gauss2
    new_gauss2-IsKernel =
        let r =
          make_gauss2-IsKernel sigmax sigmay w h (replicate (w * h) junk)
            (size_of-odd sigmax w is_w) (size_of-odd sigmay h is_h)
            (length-replicate (w * h) junk) in
        (r.0, rw (is_w, is_h) r.1, r.2)

    renew-IsKernel :
        (g : Gauss2 real libm)
        → IsKernel g
        → (g' : Gauss2 real libm) × (renew real libm junk sigmax sigmay g ≡ some g') × IsKernel g'
    unfolding renew
    renew-IsKernel g k =
        let made = k.made in
        let fits : length
              (if not (g.w_size * g.h_size == w * h) then replicate (w * h) junk else g.kernel)
            ≡ w * h =
          elim (Bool-cases (g.w_size * g.h_size == w * h)) [
            | inl same ↦
                let e : g.w_size * g.h_size ≡ w * h = ground arith in
                rw same (omega (arith, made.whole))
            | inr other ↦ rw other (length-replicate (w * h) junk)
          ] in
        let r =
          make_gauss2-IsKernel sigmax sigmay w h
            (if not (g.w_size * g.h_size == w * h) then replicate (w * h) junk else g.kernel)
            (size_of-odd sigmax w is_w) (size_of-odd sigmay h is_h) fits in
        (r.0, rw (is_w, is_h) r.1, r.2)

    -- For deviations that have sizes, NewKernel returns true, and leaves a kernel of odd sizes in which
    -- each cell is its weight, divided by the sum of all, if there was one before.
    pub new_kernel-IsKernel :
        (g : Gauss2 real libm)
        → IsKernel g
        → (g' : Gauss2 real libm) × (new_kernel real libm junk sigmax sigmay g ≡ some (g', true))
          × IsKernel g'
    unfolding new_kernel
    new_kernel-IsKernel g k =
        let near = λ (a b : R). lt (fabs real (sub a b)) (literal 1 6) in
        elim (Bool-cases (near g.sigmax sigmax && near g.sigmay sigmay)) [
          | inl unchanged ↦ (g, rw unchanged refl, k)
          | inr changed ↦ let r = renew-IsKernel g k in (r.0, rw (changed, r.1) refl, r.2)
        ]

  -- The same for gauss_std_convolve.
  pub record IsSquare (g : GaussStd real libm) : Type 0 where
    pub odd : g.width % 2 ≡ 1
    pub made :
        IsGaussian real libm g.width g.width (mul (mul (of_int (pos 2)) g.sigma) g.sigma) g.square

  make_std-IsSquare :
      (w : ℕ) (sigma : R) (memory : List R)
      → w % 2 ≡ 1
      → length memory ≡ w * w
      → (g' : GaussStd real libm) × (make_std_kernel real libm
            (record { width = w; sigma = sigma; square = memory })
          ≡ some g')
        × IsSquare g'
  unfolding make_std_kernel
  make_std-IsSquare w sigma memory a size =
      let r =
        make_kernel-IsGaussian real libm w w (mul (mul (of_int (pos 2)) sigma) sigma) memory size in
      (
        record { width = w; sigma = sigma; square = r.0 },
        rw r.1 refl,
        record { odd = a; made = r.2 },
      )

  odd_width-odd : (size : ℤ) → odd_width real libm size % 2 ≡ 1
  unfolding odd_width
  odd_width-odd (pos n) = ground arith
  odd_width-odd (negsuc n) = refl

  -- Whatever size and deviation is asked for, the constructor makes a kernel of an odd size.
  pub new_gauss_std-IsSquare :
      (size : ℤ) (sigma : R)
      → (g : GaussStd real libm) × (new_gauss_std real libm junk size sigma ≡ some g) × IsSquare g
  unfolding new_gauss_std
  new_gauss_std-IsSquare size sigma =
      let w = odd_width real libm size in
      make_std-IsSquare w (if lt sigma (literal 1 1) then literal 1 1 else sigma)
        (replicate (w * w) junk) (odd_width-odd size) (length-replicate (w * w) junk)

  -- Whatever size and deviation is asked for, NewKernel leaves a kernel of an odd size in which each
  -- cell is its weight, divided by the sum of all, if there was one before.
  pub new_std_kernel-IsSquare :
      (size : ℤ) (sigma : R) (g : GaussStd real libm)
      → IsSquare g
      → (g' : GaussStd real libm) × (b : Bool) × (new_std_kernel real libm junk size sigma g
          ≡ some (g', b))
        × IsSquare g'
  unfolding new_std_kernel
  new_std_kernel-IsSquare (negsuc size) sigma g k = (g, false, refl, k)
  new_std_kernel-IsSquare (pos size) sigma g k =
      let newsize = size / 2 * 2 + 1 in
      let memory =
        if not (newsize == g.width) then replicate (newsize * newsize) junk else g.square in
      let made = k.made in
      let fits : length memory ≡ newsize * newsize = elim (Bool-cases (newsize == g.width)) [
        | inl same ↦
            let e : newsize ≡ g.width = ground arith in
            rw same (made.whole ∙ ap (λ n. n * n) (sym e))
        | inr other ↦ rw other (length-replicate (newsize * newsize) junk)
      ] in
      elim (Bool-cases (ltb size 3 || lt sigma (literal 1 1))) [
        | inl refused ↦ (g, false, rw refused refl, k)
        | inr taken ↦ elim (Bool-cases (size == g.width && eqb sigma g.sigma)) [
          | inl unchanged ↦ (g, true, rw (taken, unchanged) refl, k)
          | inr changed ↦
              let r = make_std-IsSquare newsize sigma memory (omega arith) fits in
              (r.0, true, rw (taken, changed, r.1) refl, r.2)
        ]
      ]
