-- ===== src/Numeric/Matrix/Invert/Within.antt =====
-- That MatInvert stays within the matrix and its working memory.
use camannex.Base.{
  ℕ, ◌+◌, ◌-◌, ◌*◌, ◌<◌, ◌≤◌, ◌≡◌, ◌∙◌, List, if◌then◌else◌, length, All, arith, Bool-cases, inl,
  inr,
}
use camannex.Base.Real.{Real}
use camannex.Numeric.Interpolation.{fabs}
use camannex.Numeric.Convolve.Window.{row_fits}
use camannex.Numeric.Loop.{
  Returns, Returns-some, Returns->>=, Returns-for_from, Returns-get_elem?, Returns-store,
  Returns-stored,
}
use camannex.Numeric.Matrix.Invert.{
  load_column, save_column, along, exchange, scale, lesser, Work, reduce, reduce_column, pivot,
}

module _ (real : Real) (n : ℕ) where
  open real use {R, add, sub, of_int, ltb as lt}

  -- A row and a column of the matrix give a place in it.
  pub place : (i c : ℕ) (a : List R) → length a ≡ n * n → i < n → c < n → i * n + c < length a
  place i c a e h g = omega (arith, row_fits i n n h)

  abbrev pub Whole : List R → Type 0
  Whole a = length a ≡ n * n

  abbrev pub Column : List R → Type 0
  Column q = length q ≡ n

  pub load_column-Column :
      (count r c : ℕ) (a q0 : List R)
      → Whole a
      → r + count ≤ n
      → c < n
      → Column q0
      → Returns Column (load_column real n count r c a q0)
  unfolding load_column
  load_column-Column count r c a q0 w h g e =
      Returns-for_from Column count 0 _
        (λ i x y q f.
          Returns-get_elem? Column a ((r + i) * n + c) _ (place (r + i) c a w (omega arith) g)
            λ v. Returns-stored Column q i v (omega arith) λ ys k. k ∙ f)
        q0 e

  pub save_column-Whole :
      (count r c : ℕ) (a q0 : List R)
      → Whole a
      → r + count ≤ n
      → c < n
      → Column q0
      → Returns Whole (save_column real n count r c a q0)
  unfolding save_column
  save_column-Whole count r c a q0 w h g e =
      Returns-for_from Whole count 0 _
        (λ i x y m f. Returns-get_elem? Whole q0 i _ (omega arith) λ v.
          Returns-stored Whole m ((r + i) * n + c) v (place (r + i) c m f (omega arith) g)
            λ ys k. k ∙ f)
        a w

  pub along-some :
      (f : R → R → R) (count row i k : ℕ) (a q0 : List R) (t : R)
      → Whole a
      → Column q0
      → row < n
      → i + count ≤ n
      → k + count ≤ n
      → Returns (λ (v : R). Unit {0}) (along real n f count row i k a q0 t)
  unfolding along
  along-some f count row i k a q0 t w e h g l =
      Returns-for_from (λ v. Unit) count 0 _
        (λ s x y t' u.
          Returns-get_elem? _ a (row * n + (i + s)) _ (place row (i + s) a w h (omega arith))
            λ p. Returns-get_elem? _ q0 (k + s) _ (omega arith) λ q. Returns-some _ _ tt)
        t tt

  pub exchange-Whole :
      (p q : ℕ) (a : List R)
      → Whole a
      → p < length a
      → q < length a
      → Returns Whole (exchange real n p q a)
  unfolding exchange
  exchange-Whole p q a w h g = Returns-get_elem? Whole a p _ h λ x.
      Returns-get_elem? Whole a q _ g λ y.
        Returns-store Whole a p y _ h
          λ b e. Returns-stored Whole b q x (omega arith) λ c f. f ∙ (e ∙ w)

  pub scale-Whole :
      (p : ℕ) (t : R) (a : List R) → Whole a → p < length a → Returns Whole (scale real n p t a)
  unfolding scale
  scale-Whole p t a w h =
      Returns-get_elem? Whole a p _ h λ x. Returns-stored Whole a p _ h λ b e. e ∙ w

  -- The matrix and the working column keep their sizes, and what is kept of the exchanges are rows.
  abbrev pub HasRoom : Work real n → Type 0
  HasRoom w = Whole w.a × Column w.q0 × (length w.exchanged ≡ n) × All (λ r. r < n) w.exchanged

  reduce-Column :
      (j i : ℕ) (a q0 : List R)
      → Whole a
      → j < n
      → 1 ≤ i
      → i < n
      → Column q0
      → Returns Column (reduce real n j a i q0)
  unfolding reduce
  reduce-Column j i a q0 w h g l e =
      let few : lesser real n i j ≤ n = ground arith in
      Returns->>= _ Column _ _
        (along-some add (lesser real n i j) i 0 0 a q0 _ w e l (omega arith) (omega arith))
        λ t _.
          Returns-get_elem? Column q0 i _ (omega arith)
            λ x. Returns-stored Column q0 i _ (omega arith) λ ys k. k ∙ e

  pub reduce_column-HasRoom :
      (j : ℕ) (w : Work real n) → j < n → HasRoom w → Returns HasRoom (reduce_column real n j w)
  unfolding reduce_column
  reduce_column-HasRoom j w h (a, q, l, x) =
      Returns->>= Column HasRoom _ _ (load_column-Column n 0 j w.a w.q0 a (omega arith) h q)
        λ q0 e0.
          Returns->>= Column HasRoom _ _
            (Returns-for_from Column (n - 1) 1 (reduce real n j w.a)
              (λ i b c s r. reduce-Column j i w.a s a h b (omega arith) r) q0 e0)
            λ q1 e1.
              Returns->>= Whole HasRoom _ _ (save_column-Whole n 0 j w.a q1 a (omega arith) h e1)
                λ a' e2. Returns-some HasRoom _ (e2, e1, l, x)

  pub pivot-row :
      (j : ℕ) (a : List R) → j < n → Whole a → Returns (λ (r : R × ℕ). r.1 < n) (pivot real n j a)
  unfolding pivot
  pivot-row j a h w = Returns-get_elem? _ a (j * n + j) _ (place j j a w h h) λ x.
      Returns-for_from (λ r. r.1 < n) (n - (j + 1)) (j + 1) _
        (λ k b c best r.
          Returns-get_elem? _ a (k * n + j) _ (place k j a w (omega arith) h)
            λ y. Returns-some _ _ (greater best y k r (omega arith)))
        (fabs real x, j) h
    where
      greater :
          (best : R × ℕ) (y : R) (k : ℕ)
          → best.1 < n
          → k < n
          → (if lt best.0 (fabs real y) then (fabs real y, k) else best).1 < n
      greater best y k r s = elim (Bool-cases (lt best.0 (fabs real y))) [
        | inl more ↦ rw more s
        | inr less ↦ rw less r
      ]
