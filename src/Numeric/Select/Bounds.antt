-- ===== src/Numeric/Select/Bounds.antt =====
-- What k_select keeps about the stretch in which it looks.
use camannex.Base.{
  ℕ, ◌-◌, ◌<◌, ◌≤◌, ◌≡◌, List, leb, ltb, ◌==◌, length, arith, Bool-cases, inl, inr, subst,
}
use camannex.Numeric.Select.{Order}
use camannex.Numeric.Select.Exchange.{Le, le_refl, item, Within}
use camannex.Numeric.Select.Median.{Halves}

le_lt_trans : (a b c : ℕ) → a ≤ b → b < c → a < c
le_lt_trans a b c h g = omega arith

module _ {A : Type 0} (o : Order A) (d : A) where
  -- What is left of `l` is not above what is from `l` on, and what is up to `ir` not above what is
  -- behind it.
  pub record Bounded (l ir : ℕ) (xs : List A) : Type 0 where
    pub left : (p q : ℕ) → p < l → l ≤ q → q < length xs → Le o d (item o d xs p) (item o d xs q)
    pub right : (p q : ℕ) → p ≤ ir → ir < q → q < length xs → Le o d (item o d xs p) (item o d xs q)

  -- The element at `k` stands where it stands in the sorted array.
  pub record IsSelected (k : ℕ) (xs : List A) : Type 0 where
    pub low : (m : ℕ) → m ≤ k → Le o d (item o d xs m) (item o d xs k)
    pub high : (m : ℕ) → k ≤ m → m < length xs → Le o d (item o d xs k) (item o d xs m)

  -- Permuting what is between `l` and `ir` keeps the bounds.
  pub Within-Bounded :
      (l ir : ℕ) (xs ys : List A)
      → ir < length xs
      → Within o d l ir xs ys
      → Bounded l ir xs
      → Bounded l ir ys
  Within-Bounded l ir xs ys n w b =
      let long = w.same_length in
      record {
        left = λ p q e f g.
            let (s, x, y, z) = from_right q f (rw (long) at g) in
            rw (w.outside p (inl e), z) (b.left p s e x y);
        right = λ p q e f g.
            let (s, x, z) = from_left p e in
            rw (w.outside q (inr f), z) (b.right s q x f (rw (long) at g));
      }
    where
      from_right :
          (q : ℕ)
          → l ≤ q
          → q < length xs
          → (s : ℕ) × (l ≤ s) × (s < length xs) × (item o d ys q ≡ item o d xs s)
      from_right q f g = elim (Bool-cases (leb q ir)) [
        | inl inside ↦
            let r = w.from q f (ground arith) in
            (r.0, r.1, le_lt_trans r.0 ir (length xs) r.2 n, r.3)
        | inr behind ↦ (q, f, g, w.outside q (inr (ground arith)))
      ]

      from_left : (p : ℕ) → p ≤ ir → (s : ℕ) × (s ≤ ir) × (item o d ys p ≡ item o d xs s)
      from_left p e = elim (Bool-cases (leb l p)) [
        | inl inside ↦ let r = w.from p (ground arith) e in (r.0, r.2, r.3)
        | inr before ↦ (p, e, w.outside p (inl (ground arith)))
      ]

  module _ (l ir k : ℕ) (xs : List A) (b : Bounded l ir xs) (n : ir < length xs) where
    -- What is in order between `l` and `ir` is selected.
    pub small-IsSelected :
        l ≤ k
        → k ≤ ir
        → ((p q : ℕ) → l ≤ p → p ≤ q → q ≤ ir → Le o d (item o d xs p) (item o d xs q))
        → IsSelected k xs
    small-IsSelected h g inner = record {
      low = λ m e. elim (Bool-cases (ltb m l)) [
        | inl before ↦ b.left m k (ground arith) h (omega arith)
        | inr inside ↦ inner m k (ground arith) e g
      ];
      high = λ m e f. elim (Bool-cases (ltb ir m)) [
        | inl behind ↦ b.right k m g (ground arith) f
        | inr inside ↦ inner k m h e (ground arith)
      ];
    }

    module _ (i j : ℕ) (s : Halves o d l ir i j xs) where
      pub pivot-IsSelected : j ≡ k → IsSelected k xs
      pivot-IsSelected e =
          subst (λ p. IsSelected p xs) e
            (record {
              low = λ m h. elim (Bool-cases (ltb m l)) [
                | inl before ↦
                    b.left m j (ground arith) (omega (arith, s.above))
                      (omega (arith, s.crossed, s.inside))
                | inr inside ↦ elim (Bool-cases (m == j)) [
                  | inl same ↦
                      let e : j ≡ m = ground arith in
                      subst (λ p. Le o d (item o d xs p) (item o d xs j)) e
                        (le_refl o d (item o d xs j))
                  | inr other ↦ s.low m (ground arith) (ground (arith, s.crossed))
                ]
              ];
              high = λ m h f. elim (Bool-cases (ltb ir m)) [
                | inl behind ↦ b.right j m (omega (arith, s.crossed, s.inside)) (ground arith) f
                | inr inside ↦ s.high m h (ground arith)
              ];
            })

      pub left-Bounded : Bounded l (j - 1) xs
      left-Bounded = record {
        left = b.left;
        right = λ p q e f g. elim (Bool-cases (ltb p l)) [
          | inl before ↦ b.left p q (ground arith) (omega (arith, s.crossed, s.above)) g
          | inr inside ↦ elim (Bool-cases (ltb ir q)) [
            | inl behind ↦
                b.right p q (omega (arith, s.crossed, s.inside, s.above)) (ground arith) g
            | inr here ↦
                o.le_trans (item o d xs p) (item o d xs j) (item o d xs q)
                  (s.low p (ground arith) (omega (arith, s.crossed, s.above)))
                  (s.high q (omega (arith, s.above)) (ground arith))
          ]
        ];
      }

      pub right-Bounded : Bounded i ir xs
      right-Bounded = record {
        left = λ p q e f g. elim (Bool-cases (ltb p l)) [
          | inl before ↦ b.left p q (ground arith) (omega (arith, s.crossed, s.above)) g
          | inr inside ↦ elim (Bool-cases (ltb ir q)) [
            | inl behind ↦ b.right p q (omega (arith, s.inside)) (ground arith) g
            | inr here ↦
                o.le_trans (item o d xs p) (item o d xs j) (item o d xs q)
                  (s.low p (ground arith) e) (s.high q (omega (arith, s.crossed)) (ground arith))
          ]
        ];
        right = b.right;
      }
