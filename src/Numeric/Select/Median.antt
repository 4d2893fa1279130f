-- ===== src/Numeric/Select/Median.antt =====
-- The pivot of one round of k_select, and the halves about it.
use camannex.Base.{
  ℕ, ◌+◌, ◌/◌, ◌<◌, ◌≤◌, ◌≡◌, refl, List, true, false, some, ◌==◌, ◌>>=◌, length, set, length-set,
  get_elem?-eq-get_or, arith, Bool-cases, inl, inr, subst,
}
use camannex.Numeric.Select.{Order, arrange, median, split}
use camannex.Numeric.Select.Exchange.{
  Le, le_refl, item, exchanged, item-exchanged, exchanged-Within, Within, Within_trans,
  Within_wider, swap-some, store-some, arrange-some,
}
use camannex.Numeric.Select.Partition.{Parted, Crossed, Partitions, partition-Crossed}

module _ {A : Type 0} (o : Order A) (d : A) where
  -- The element at `l + 1` lies between the first and the last.
  pub record Ready (l ir : ℕ) (xs : List A) : Type 0 where
    pub first : Le o d (item o d xs l) (item o d xs (l + 1))
    pub last : Le o d (item o d xs (l + 1)) (item o d xs ir)

  module _ (l ir : ℕ) (three : l + 1 < ir) where
    middle_last :
        (x2 x3 : List A)
        → ir < length x3
        → Le o d (item o d x2 l) (item o d x2 ir)
        → Within o d l ir x2 x3
        → Le o d (item o d x3 (l + 1)) (item o d x3 ir)
        → Le o d (item o d x3 l) (item o d x3 ir)
        → (x4 : List A) × (arrange o l (l + 1) x3 ≡ some x4) × Within o d l ir x2 x4 × Ready l ir x4
    middle_last x2 x3 n low w le le' =
        let (other, i, j) : ((l == l + 1) ≡ false) × ((ir == l) ≡ false) × ((ir == l + 1) ≡ false) =
          ground arith in
        let r = arrange-some o d l ir l (l + 1) x3 n (omega arith) (omega arith) other in
        let last : item o d r.0 ir ≡ item o d x3 ir = r.4 ir i j in
        (
          r.0,
          r.1,
          Within_trans o d w r.2,
          record { first = r.3; last = rw last ((r.5 (item o d x3 ir) le' le).1) },
        )

    middle :
        (x2 : List A)
        → ir < length x2
        → Le o d (item o d x2 l) (item o d x2 ir)
        → (x4 : List A) × ((arrange o (l + 1) ir x2 >>= λ x3. arrange o l (l + 1) x3) ≡ some x4)
          × Within o d l ir x2 x4
          × Ready l ir x4
    middle x2 n low =
        let (other, i, j) : ((l + 1 == ir) ≡ false) × ((l == l + 1) ≡ false) × ((l == ir) ≡ false) =
          ground arith in
        let r = arrange-some o d l ir (l + 1) ir x2 n (omega arith) (omega arith) other in
        let same : item o d r.0 l ≡ item o d x2 l = r.4 l i j in
        let w = r.2 in
        let long : ir < length r.0 = rw (w.same_length) n in
        let s =
          middle_last x2 r.0 long low w r.3
            (rw same (o.le_trans (item o d x2 l) (item o d x2 ir) (item o d r.0 ir) low r.6)) in
        (s.0, rw (r.1) (s.1), s.2, s.3)

    median-Ready :
        (x0 : List A)
        → ir < length x0
        → (x4 : List A) × (median o l ir x0 ≡ some x4) × Within o d l ir x0 x4 × Ready l ir x4
    unfolding median
    median-Ready x0 n =
        let mid = (l + ir) / 2 in
        let (p, q) : (l ≤ mid) × (mid ≤ ir) = omega arith in
        let (h, g) : (mid < length x0) × (l + 1 < length x0) = omega arith in
        let other : (l == ir) ≡ false = ground arith in
        let (ends, all) : ((l ≤ l) × (l ≤ ir)) × ((l ≤ ir) × (ir ≤ ir)) = omega arith in
        let x1 = exchanged o d mid (l + 1) x0 in
        let w1 = exchanged-Within o d l ir mid (l + 1) x0 n (p, q) (omega arith) in
        let n1 : ir < length x1 = omega (arith, w1.same_length) in
        let r = arrange-some o d l ir l ir x1 n1 ends all other in
        let w2 = r.2 in
        let n2 : ir < length r.0 = rw (w2.same_length) n1 in
        let s = middle r.0 n2 r.3 in
        (
          s.0,
          rw (swap-some o d mid (l + 1) x0 h g, r.1) (s.1),
          Within_trans o d w1 (Within_trans o d w2 s.2),
          s.3,
        )

  -- Before `i` nothing is above the element at `j`, and from `j` on nothing is below it.
  pub record Halves (l ir i j : ℕ) (ys : List A) : Type 0 where
    pub crossed : j ≤ i
    pub adjacent : i ≤ j + 1
    pub above : l < j
    pub inside : i ≤ ir
    pub low : (m : ℕ) → l ≤ m → m < i → Le o d (item o d ys m) (item o d ys j)
    pub high : (m : ℕ) → j ≤ m → m ≤ ir → Le o d (item o d ys j) (item o d ys m)

  -- The pivot is put between the halves.
  placed-Halves :
      (l ir i j : ℕ) (a : A) (xs : List A)
      → ir < length xs
      → item o d xs (l + 1) ≡ a
      → Crossed o d l ir a i j xs
      → Halves l ir i j (exchanged o d (l + 1) j xs)
  placed-Halves l ir i j a xs n pivot c =
      let adj = c.adjacent in
      let cross = c.crossed in
      let ab = c.above in
      let ins = c.inside in
      let (h, g) : (l + 1 < length xs) × (j < length xs) = omega arith in
      let at = λ (m : ℕ). item-exchanged o d (l + 1) j m xs h g in
      let self : (j == j) ≡ true = ground arith in
      let there : item o d (exchanged o d (l + 1) j xs) j ≡ a = rw (at j, self) pivot in
      record {
        crossed = cross;
        adjacent = adj;
        above = ab;
        inside = ins;
        low = λ m e f. elim (Bool-cases (j == m)) [
          | inl same ↦ rw (there, at m, same, pivot) (le_refl o d a)
          | inr other ↦ elim (Bool-cases (l + 1 == m)) [
            | inl first ↦ rw (there, at m, other, first) c.at
            | inr rest ↦ rw (there, at m, other, rest) (c.before m e f)
          ]
        ];
        high = λ m e f. elim (Bool-cases (j == m)) [
          | inl same ↦ rw (there, at m, same, pivot) (le_refl o d a)
          | inr other ↦
              let rest : (l + 1 == m) ≡ false = ground arith in
              rw (there, at m, other, rest) (c.behind m (ground arith) f)
        ];
      }

  Ready-Parted :
      (l ir : ℕ) (xs : List A) → Ready l ir xs → Parted o d l ir (item o d xs (l + 1)) (l + 1) ir xs
  Ready-Parted l ir xs ready = record {
    low = λ m e f. elim (Bool-cases (l == m)) [
      | inl first ↦
          let e' : l ≡ m = ground arith in
          subst (λ p. Le o d (item o d xs p) (item o d xs (l + 1))) e' ready.first
      | inr second ↦
          let e' : l + 1 ≡ m = ground arith in
          subst (λ p. Le o d (item o d xs p) (item o d xs (l + 1))) e'
            (le_refl o d (item o d xs (l + 1)))
    ];
    high = λ m e f.
        let e' : ir ≡ m = omega arith in
        subst (λ p. Le o d (item o d xs (l + 1)) (item o d xs p)) e' ready.last;
  }

  place :
      (l ir : ℕ) (x0 x4 : List A)
      → l + 1 < ir
      → ir < length x4
      → median o l ir x0 ≡ some x4
      → Within o d l ir x0 x4
      → Partitions o d (length x4) l ir (item o d x4 (l + 1)) (l + 1) ir x4
      → (i j : ℕ) × (ys : List A) × (split o l ir x0 ≡ some (i, j, ys))
        × Within o d l ir x0 ys
        × Halves l ir i j ys
  unfolding split
  place l ir x0 x4 three n found w (i, j, x5, parts, within, c) =
      let adj = c.adjacent in
      let cross = c.crossed in
      let ab = c.above in
      let ins = c.inside in
      let a = item o d x4 (l + 1) in
      let n5 : ir < length x5 = omega (arith, within.same_length) in
      let pivot : item o d x5 (l + 1) ≡ a = within.outside (l + 1) (inl (omega arith)) in
      let (p, q, s) : (l + 1 < length x5) × (j < length x5) × (l + 1 < length x4) = omega arith in
      let last : j < length (set x5 (l + 1) (item o d x5 j)) =
        rw (length-set x5 (l + 1) (item o d x5 j)) q in
      let wider : (l ≤ l + 1 + 1) × (ir ≤ ir) = omega arith in
      let once = exchanged-Within o d l ir (l + 1) j x5 n5 (omega arith) (omega arith) in
      (
        i,
        j,
        exchanged o d (l + 1) j x5,
        rw
            (
              found,
              get_elem?-eq-get_or x4 (l + 1) d s,
              parts,
              get_elem?-eq-get_or x5 j d q,
              store-some o d (l + 1) (item o d x5 j) x5 p,
              store-some o d j a (set x5 (l + 1) (item o d x5 j)) last,
              pivot,
            )
            refl,
        Within_trans o d w (Within_trans o d (Within_wider o d (wider.0) (wider.1) within) once),
        placed-Halves l ir i j a x5 n5 pivot c,
      )

  le_self : (n : ℕ) → n ≤ n
  le_self n = omega arith

  lt_far : (n m k : ℕ) → n < k → n ≤ m + k
  lt_far n m k h = omega arith

  pub split-Halves :
      (l ir : ℕ) (x0 : List A)
      → l + 1 < ir
      → ir < length x0
      → (i j : ℕ) × (ys : List A) × (split o l ir x0 ≡ some (i, j, ys))
        × Within o d l ir x0 ys
        × Halves l ir i j ys
  split-Halves l ir x0 three n =
      let less : l < l + 1 = omega arith in
      let r = median-Ready l ir three x0 n in
      let w = r.2 in
      let n4 : ir < length r.0 = rw (w.same_length) n in
      place l ir x0 r.0 three n4 r.1 r.2 (
        partition-Crossed o d (length r.0) l ir (item o d r.0 (l + 1)) (l + 1) ir r.0 less three
          (le_self ir) n4 (lt_far ir (l + 1) (length r.0) n4) (Ready-Parted l ir r.0 r.3))
