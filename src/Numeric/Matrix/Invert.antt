-- ===== src/Numeric/Matrix/Invert.antt =====
-- MatInvert and LSLinearSolve of src/AMath.cpp. A pointer into the matrix is written as its row times
-- `n` and its column; `none` is an access outside an array.
pub mod Factor
pub mod Solve
pub mod Tests
pub mod Total
pub mod Within
use camannex.Base.{
  ℕ, zero, suc, ◌+◌, ◌-◌, ◌*◌, List, [], ◌∷◌, Bool, true, false, not, Option, none, some, ltb, ◌==◌,
  if◌then◌else◌, ◌>>=◌, length, get_elem?, replicate,
}
use camannex.Base.Int.{ℤ, pos}
use camannex.Base.Real.{Real}
use camannex.Numeric.Interpolation.{fabs}
use camannex.Numeric.Loop.{for_from, store}
use camannex.Numeric.Matrix.Product.{mat_real_mult}

module _ (real : Real) (n : ℕ) where
  open real use {R, add, sub, mul, div, neg, of_int, literal, ltb as lt}

  -- `q0[i] = A[...]`, for so many rows of a column from the row `r` on.
  unfoldable pub load_column : (count r c : ℕ) → (a q0 : List R) → Option (List R)
  load_column count r c a q0 =
      for_from count 0 (λ i q. get_elem? a ((r + i) * n + c) >>= λ v. store q i v) q0

  -- The way back.
  unfoldable pub save_column : (count r c : ℕ) → (a q0 : List R) → Option (List R)
  save_column count r c a q0 =
      for_from count 0 (λ i m. get_elem? q0 i >>= λ v. store m ((r + i) * n + c) v) a

  -- Products along a row from column `i` on with q0 from `k` on, added to or taken from `t`.
  unfoldable pub along : (R → R → R) → (count row i k : ℕ) → (a q0 : List R) → R → Option R
  along f count row i k a q0 t =
      for_from count 0
        (λ s t'. get_elem? a (row * n + (i + s)) >>= λ x.
          get_elem? q0 (k + s) >>= λ y. some (f t' (mul x y)))
        t

  -- `t = *p; *p = *q; *q = t`
  unfoldable pub exchange : (p q : ℕ) → List R → Option (List R)
  exchange p q a = do x ← get_elem? a p; y ← get_elem? a q; b ← store a p y; store b q x

  -- `*p *= t`
  unfoldable pub scale : ℕ → R → List R → Option (List R)
  scale p t a = get_elem? a p >>= λ x. store a p (mul x t)

  abbrev lesser : ℕ → ℕ → ℕ
  lesser i j = if ltb i j then i else j

  -- The matrix, the working column, the rows that were exchanged, and `tq`.
  pub record Work : Type 0 where
    pub a : List R
    pub q0 : List R
    pub exchanged : List ℕ
    pub tq : R

  -- `q0[i] -= t` for the rows below the first.
  unfoldable pub reduce : ℕ → List R → ℕ → List R → Option (List R)
  reduce j a i q0 = do
    t ← along add (lesser i j) i 0 0 a q0 (of_int (pos 0))
    x ← get_elem? q0 i
    store q0 i (sub x t)

  -- The column `j`, if it is not the first, reduced by those before it.
  unfoldable pub reduce_column : ℕ → Work → Option Work
  reduce_column j w = do
    q0 ← load_column n 0 j w.a w.q0
    q1 ← for_from (n - 1) 1 (reduce j w.a) q0
    a ← save_column n 0 j w.a q1
    some (record w { a = a; q0 = q1 })

  -- The greatest element of the column from row `j` on: its absolute value, and its row.
  unfoldable pub pivot : ℕ → List R → Option (R × ℕ)
  pivot j a = do
    x ← get_elem? a (j * n + j)
    for_from (n - (j + 1)) (j + 1)
        (λ k best. get_elem? a (k * n + j) >>= λ y.
          some (if lt best.0 (fabs real y) then (fabs real y, k) else best))
        (fabs real x, j)

  -- The rows `j` and `lc` exchanged, and the column below the diagonal scaled.
  unfoldable pub take_pivot : (j lc : ℕ) → List R → Option (List R)
  take_pivot j lc a = do
    b ← if not (lc == j) then for_from n 0 (λ k. exchange (j * n + k) (lc * n + k)) a else some a
    x ← get_elem? b (j * n + j)
    let t = div (of_int (pos 1)) x
    c ← for_from (n - (j + 1)) (j + 1) (λ k. scale (k * n + j) t) b
    store c (j * n + j) t

  -- One round of the first loop: inner `none` where the matrix is singular.
  unfoldable pub factor : ℕ → Work → Option (Option Work)
  factor j w0 = do
    w ← if ltb 0 j then reduce_column j w0 else some w0
    (s, lc) ← pivot j w.a
    let tq = if lt s w.tq then w.tq else s
    let taken : Option (Option Work) = store w.exchanged j lc >>= λ e.
        take_pivot j lc w.a >>= λ a. some (some (record w { a = a; exchanged = e; tq = tq }))
    if lt s (mul (literal 1 15) tq) then some none else taken

  unfoldable pub factor_all : (rounds j : ℕ) → Work → Option (Option Work)
  factor_all zero j w = some (some w)
  factor_all (suc rounds) j w =
      factor j w >>= λ r. elim r [ none ↦ some none | some w' ↦ factor_all rounds (j + 1) w' ]

  -- The second loop: what is above the diagonal, scaled.
  unfoldable pub scale_upper : ℕ → List R → Option (List R)
  scale_upper j a = for_from j 0 (λ k m. get_elem? m (j * n + j) >>= λ t. scale (k * n + j) t m) a

  -- The third loop: the inverse of the upper triangle.
  unfoldable pub invert_upper : ℕ → Work → Option Work
  invert_upper j w = do
    q0 ← load_column j 0 j w.a w.q0
    q1 ←
        for_from j 0 (λ k q. along sub (j - k) k k k w.a q (of_int (pos 0)) >>= λ t. store q k t) q0
    a ← save_column j 0 j w.a q1
    some (record w { a = a; q0 = q1 })

  -- The fourth loop: the inverse of the lower triangle, in round `s` of the column n - 2 - s. The rows
  -- go from the last one up.
  unfoldable pub invert_lower : ℕ → Work → Option Work
  invert_lower s w = do
    let j = n - 2 - s
    let m = n - j - 1
    q0 ← load_column m (j + 1) j w.a w.q0
    q1 ←
        for_from m 0
          (λ r q. get_elem? w.a ((n - 1 - r) * n + j) >>= λ x.
            along sub (n - 1 - r - (j + 1)) (n - 1 - r) (j + 1) 0 w.a q (neg x) >>= λ t.
            store q (n - 1 - r - j - 1) t)
          q0
    a ← save_column m (j + 1) j w.a q1
    some (record w { a = a; q0 = q1 })

  -- The fifth loop: the product of the two.
  unfoldable pub join : ℕ → Work → Option Work
  join k w = do
    q0 ← load_column n 0 k w.a w.q0
    q1 ←
        for_from n 0
          (λ j q. get_elem? q j >>= λ x.
            let i = if ltb k j then j else k + 1 in
            along add (n - i) j i i w.a q (if ltb k j then of_int (pos 0) else x) >>= λ t.
            store q j t)
          q0
    a ← save_column n 0 k w.a q1
    some (record w { a = a; q0 = q1 })

  -- The last loop: the columns exchanged back, in round `s` those of the exchange n - 2 - s.
  unfoldable pub undo : ℕ → Work → Option Work
  undo s w = do
    let j = n - 2 - s
    lc ← get_elem? w.exchanged j
    a ← for_from n 0 (λ k. exchange (k * n + j) (k * n + lc)) w.a
    some (record w { a = a })

  -- MatInvert: the matrix, or inner `none` where it returns -1. New memory holds `junk`.
  unfoldable pub mat_invert : R → List R → Option (Option (List R))
  mat_invert junk a =
      let begin : Work = record {
        a = a;
        q0 = replicate n junk;
        exchanged = replicate n 0;
        tq = of_int (pos 0);
      } in
      let rest = λ (w0 : Work). for_from (n - 1) 1 scale_upper w0.a >>= λ b.
      for_from (n - 1) 1 invert_upper (record w0 { a = b }) >>= λ w1.
      for_from (n - 1) 0 invert_lower w1 >>= λ w2.
      for_from (n - 1) 0 join w2 >>= λ w3. for_from (n - 1) 0 undo w3 >>= λ w4. some (some w4.a) in
      factor_all n 0 begin >>= λ r. elim r [ none ↦ some none | some w ↦ rest w ]

-- LSLinearSolve: the solution, or inner `none` where it returns false. `x` is the memory for it.
unfoldable pub ls_linear_solve :
    (real : Real) → real.R → ℕ → (y a x : List real.R) → Option (Option (List real.R))
ls_linear_solve real junk m y a x = mat_invert real m junk a >>= λ r. elim r [
  | none ↦ some none
  | some b ↦ some (some (mat_real_mult real m m 1 b y x))
]
