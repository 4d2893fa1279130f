-- ===== src/Numeric/Matrix/Invert/Total.antt =====
-- That MatInvert returns: its six loops keep the sizes of the arrays, and leave none of them.
use camannex.Base.{
  ℕ, ◌+◌, ◌-◌, ◌*◌, ◌<◌, ◌≤◌, ◌≡◌, ◌∙◌, List, Option, none, some, ltb, if◌then◌else◌, ◌>>=◌, length,
  length-replicate, arith,
}
use camannex.Base.Real.{Real}
use camannex.Numeric.Loop.{
  for_from, Returns, Returns-some, Returns->>=, Returns-for_from, Returns-get_elem?, Returns-stored,
}
use camannex.Numeric.Matrix.Invert.{
  Work, scale_upper, invert_upper, invert_lower, join, undo, mat_invert,
}
use camannex.Numeric.Matrix.Invert.Within.{
  place, Column, HasRoom, load_column-Column, save_column-Whole, along-some, exchange-Whole,
  scale-Whole,
}
use camannex.Numeric.Matrix.Invert.Factor.{
  replicate-All, get_elem?-All, Kept, Goes, go_on, factor_all-HasRoom,
}

module _ (real : Real) (n : ℕ) where
  open real use {R, add, sub, of_int}

  scale_upper-Whole :
      (j : ℕ) (a : List R)
      → j < n
      → (Kept real n) a
      → Returns (Kept real n) (scale_upper real n j a)
  unfolding scale_upper
  scale_upper-Whole j a h w =
      Returns-for_from (Kept real n) j 0 _
        (λ k p q s r.
          Returns-get_elem? (Kept real n) s (j * n + j) _ (place real n j j s r h h)
            λ t. scale-Whole real n (k * n + j) t s r (place real n k j s r (omega arith) h))
        a w

  invert_upper-HasRoom :
      (j : ℕ) (w : Work real n)
      → j < n
      → HasRoom real n w
      → Returns (HasRoom real n) (invert_upper real n j w)
  unfolding invert_upper
  invert_upper-HasRoom j w h (a, q, l, x) =
      Returns->>= (Column real n) (HasRoom real n) _ _
        (load_column-Column real n j 0 j w.a w.q0 a (omega arith) h q)
        λ q0 e0.
          Returns->>= (Column real n) (HasRoom real n) _ _
            (Returns-for_from (Column real n) j 0 _
              (λ k b c s r.
                Returns->>= _ (Column real n) _ _
                  (along-some real n sub (j - k) k k k w.a s _ a r (omega arith) (omega arith)
                    (omega arith))
                  λ t _. Returns-stored (Column real n) s k t (omega arith) λ ys k'. k' ∙ r)
              q0 e0)
            λ q1 e1.
              Returns->>= (Kept real n) (HasRoom real n) _ _
                (save_column-Whole real n j 0 j w.a q1 a (omega arith) h e1)
                λ a' e2. Returns-some (HasRoom real n) _ (e2, e1, l, x)

  invert_lower-HasRoom :
      (s : ℕ) (w : Work real n)
      → s < n - 1
      → HasRoom real n w
      → Returns (HasRoom real n) (invert_lower real n s w)
  unfolding invert_lower
  invert_lower-HasRoom s w h (a, q, l, x) =
      Returns->>= (Column real n) (HasRoom real n) _ _
        (load_column-Column real n (n - (n - 2 - s) - 1) (n - 2 - s + 1) (n - 2 - s) w.a w.q0 a
          (omega arith) (omega arith) q)
        λ q0 e0.
          Returns->>= (Column real n) (HasRoom real n) _ _
            (Returns-for_from (Column real n) (n - (n - 2 - s) - 1) 0 _
              (λ k b c z r.
                Returns-get_elem? (Column real n) w.a ((n - 1 - k) * n + (n - 2 - s)) _
                  (place real n (n - 1 - k) (n - 2 - s) w.a a (omega arith) (omega arith))
                  λ y.
                    Returns->>= _ (Column real n) _ _
                      (along-some real n sub (n - 1 - k - (n - 2 - s + 1)) (n - 1 - k)
                        (n - 2 - s + 1) 0 w.a z _ a r (omega arith) (omega arith) (omega arith))
                      λ t _.
                        Returns-stored (Column real n) z (n - 1 - k - (n - 2 - s) - 1) t
                          (omega arith) λ ys k'. k' ∙ r)
              q0 e0)
            λ q1 e1.
              Returns->>= (Kept real n) (HasRoom real n) _ _
                (save_column-Whole real n (n - (n - 2 - s) - 1) (n - 2 - s + 1) (n - 2 - s) w.a q1 a
                  (omega arith) (omega arith) e1)
                λ a' e2. Returns-some (HasRoom real n) _ (e2, e1, l, x)

  join-HasRoom :
      (k : ℕ) (w : Work real n)
      → k < n - 1
      → HasRoom real n w
      → Returns (HasRoom real n) (join real n k w)
  unfolding join
  join-HasRoom k w h (a, q, l, x) =
      Returns->>= (Column real n) (HasRoom real n) _ _
        (load_column-Column real n n 0 k w.a w.q0 a (omega arith) (omega arith) q)
        λ q0 e0.
          Returns->>= (Column real n) (HasRoom real n) _ _
            (Returns-for_from (Column real n) n 0 _
              (λ j b c z r. Returns-get_elem? (Column real n) z j _ (omega arith) λ y.
                let few : (if ltb k j then j else k + 1) + (n - (if ltb k j then j else k + 1))
                    ≤ n =
                  ground arith in
                Returns->>= _ (Column real n) _ _
                  (along-some real n add (n - (if ltb k j then j else k + 1)) j
                    (if ltb k j then j else k + 1) (if ltb k j then j else k + 1) w.a z _ a r
                    (omega arith) few few)
                  λ t _. Returns-stored (Column real n) z j t (omega arith) λ ys k'. k' ∙ r)
              q0 e0)
            λ q1 e1.
              Returns->>= (Kept real n) (HasRoom real n) _ _
                (save_column-Whole real n n 0 k w.a q1 a (omega arith) (omega arith) e1)
                λ a' e2. Returns-some (HasRoom real n) _ (e2, e1, l, x)

  undo-HasRoom :
      (s : ℕ) (w : Work real n)
      → s < n - 1
      → HasRoom real n w
      → Returns (HasRoom real n) (undo real n s w)
  unfolding undo
  undo-HasRoom s w h (a, q, l, x) =
      get_elem?-All (HasRoom real n) n w.exchanged (n - 2 - s) _ (omega arith) x λ lc g.
        Returns->>= (Kept real n) (HasRoom real n) _ _
          (Returns-for_from (Kept real n) n 0 _
            (λ k b c z r.
              exchange-Whole real n (k * n + (n - 2 - s)) (k * n + lc) z r
                (place real n k (n - 2 - s) z r (omega arith) (omega arith))
                (place real n k lc z r (omega arith) g))
            w.a a)
          λ a' e. Returns-some (HasRoom real n) _ (e, q, l, x)

  -- The matrix that is returned, if one is, has the size of the one given.
  abbrev pub IsInverted : Option (List R) → Type 0
  IsInverted none = Unit
  IsInverted (some b) = length b ≡ n * n

  rounds-HasRoom :
      (w0 : Work real n)
      → HasRoom real n w0
      → Returns IsInverted (
          for_from (n - 1) 1 (scale_upper real n) w0.a >>= λ b.
          for_from (n - 1) 1 (invert_upper real n) (record w0 { a = b }) >>= λ w1.
          for_from (n - 1) 0 (invert_lower real n) w1 >>= λ w2.
          for_from (n - 1) 0 (join real n) w2 >>= λ w3.
          for_from (n - 1) 0 (undo real n) w3 >>= λ w4. some (some w4.a))
  rounds-HasRoom w0 (a, q, l, x) =
      Returns->>= (Kept real n) IsInverted _ _
        (Returns-for_from (Kept real n) (n - 1) 1 (scale_upper real n)
          (λ j b c s r. scale_upper-Whole j s (omega arith) r) w0.a a)
        λ b e.
          Returns->>= (HasRoom real n) IsInverted _ _
            (Returns-for_from (HasRoom real n) (n - 1) 1 (invert_upper real n)
              (λ j p c s r. invert_upper-HasRoom j s (omega arith) r) (record w0 { a = b })
              (e, q, l, x))
            λ w1 r1.
              Returns->>= (HasRoom real n) IsInverted _ _
                (Returns-for_from (HasRoom real n) (n - 1) 0 (invert_lower real n)
                  (λ j p c s r. invert_lower-HasRoom j s (omega arith) r) w1 r1)
                λ w2 r2.
                  Returns->>= (HasRoom real n) IsInverted _ _
                    (Returns-for_from (HasRoom real n) (n - 1) 0 (join real n)
                      (λ j p c s r. join-HasRoom j s (omega arith) r) w2 r2)
                    λ w3 r3.
                      Returns->>= (HasRoom real n) IsInverted _ _
                        (Returns-for_from (HasRoom real n) (n - 1) 0 (undo real n)
                          (λ j p c s r. undo-HasRoom j s (omega arith) r) w3 r3)
                        λ w4 r4. Returns-some IsInverted (some w4.a) r4.0

  -- For a matrix of n rows and n columns, n at least 1, MatInvert returns without leaving the matrix
  -- or its working memory, whatever its elements are: either it reports a singular matrix, or what
  -- it leaves has the size of the matrix.
  pub mat_invert_within :
      (junk : R) (a : List R)
      → 0 < n
      → length a ≡ n * n
      → Returns IsInverted (mat_invert real n junk a)
  unfolding mat_invert
  mat_invert_within junk a h w =
      Returns->>= (Goes real n) IsInverted _ _
        (factor_all-HasRoom real n n 0 _ (omega arith)
          (w, length-replicate n junk, length-replicate n 0, replicate-All n n h))
        λ o g. go_on real n IsInverted o _ tt g rounds-HasRoom
