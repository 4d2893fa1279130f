-- ===== src/Numeric/Select/Rounds.antt =====
-- The rounds of k_select, and what it returns.
use mathlib.Core.List.{Perm}
use camannex.Base.{
  ℕ, zero, suc, ◌+◌, ◌-◌, ◌<◌, ◌≤◌, ◌≡◌, refl, sym, List, true, false, some, leb, ◌==◌, length,
  get_elem?-eq-get_or, arith, Bool-cases, inl, inr, subst,
}
use camannex.Base.Int.{pos}
use camannex.Numeric.Select.{Order, split, select, k_select}
use camannex.Numeric.Select.Exchange.{
  Le, le_refl, item, Within, Within_refl, Within_trans, Within_wider, arrange-some,
}
use camannex.Numeric.Select.Median.{Halves, split-Halves}
use camannex.Numeric.Select.Bounds.{
  Bounded, IsSelected, Within-Bounded, small-IsSelected, pivot-IsSelected, left-Bounded,
  right-Bounded,
}

module _ {A : Type 0} (o : Order A) (d : A) where
  -- What a call of `select` gives.
  abbrev Selects : (fuel l ir k : ℕ) → List A → Type 0
  Selects fuel l ir k xs =
      (ys : List A) × (select o fuel l ir k xs ≡ some ys)
      × Within o d l ir xs ys
      × IsSelected o d k ys

  -- One or two elements.
  select_small :
      (fuel l ir k : ℕ) (xs : List A)
      → l ≤ k
      → k ≤ ir
      → ir < length xs
      → Bounded o d l ir xs
      → leb ir (l + 1) ≡ true
      → Selects (suc fuel) l ir k xs
  unfolding select
  select_small fuel l ir k xs h g n b few = elim (Bool-cases (ir == l + 1)) [
    | inl two ↦
        let other : (l == ir) ≡ false = ground arith in
        let r = arrange-some o d l ir l ir xs n (omega arith) (omega arith) other in
        let w = r.2 in
        (
          r.0,
          rw (few, two) r.1,
          w,
          small-IsSelected o d l ir k r.0 (Within-Bounded o d l ir xs r.0 n w b)
              (rw (w.same_length) n) h g
              (λ p q x y z. pair_ordered l ir r.0 (ground arith) r.3 p q x y z),
        )
    | inr one ↦ (
      xs,
      rw (few, one) refl,
      Within_refl o d l ir xs,
      small-IsSelected o d l ir k xs b n h g (λ p q x y z.
          let e : p ≡ q = ground arith in
          subst (λ m. Le o d (item o d xs p) (item o d xs m)) e (le_refl o d (item o d xs p))),
    )
  ]
    where
      pair_ordered :
          (l ir : ℕ) (ys : List A)
          → ir ≡ l + 1
          → Le o d (item o d ys l) (item o d ys ir)
          → (p q : ℕ) → l ≤ p
          → p ≤ q
          → q ≤ ir
          → Le o d (item o d ys p) (item o d ys q)
      pair_ordered l ir ys e le p q x y z = elim (Bool-cases (p == q)) [
        | inl same ↦
            let f : p ≡ q = ground arith in
            subst (λ m. Le o d (item o d ys p) (item o d ys m)) f (le_refl o d (item o d ys p))
        | inr other ↦
            let (f, g) : (l ≡ p) × (ir ≡ q) = ground arith in
            subst (λ m. Le o d (item o d ys m) (item o d ys q)) f
              (subst (λ m. Le o d (item o d ys l) (item o d ys m)) g le)
      ]

  -- The rounds behind a split.
  select_next :
      (fuel l ir k i j : ℕ) (xs ys : List A)
      → l ≤ k
      → k ≤ ir
      → ir < length xs
      → ir ≤ l + suc fuel
      → Bounded o d l ir xs
      → leb ir (l + 1) ≡ false
      → split o l ir xs ≡ some (i, j, ys)
      → Within o d l ir xs ys
      → Halves o d l ir i j ys
      → ((l' ir' : ℕ)
          → l' ≤ k
          → k ≤ ir'
          → ir' < length ys
          → ir' ≤ l' + fuel
          → Bounded o d l' ir' ys
          → Selects (suc fuel) l' ir' k ys)
      → Selects (suc (suc fuel)) l ir k xs
  unfolding select
  select_next fuel l ir k i j xs ys h g n enough b more parts w s ih =
      let n' : ir < length ys = rw (w.same_length) n in
      let b' = Within-Bounded o d l ir xs ys n w b in
      let (cr, ad, ab, ins) : (j ≤ i) × (i ≤ j + 1) × (l < j) × (i ≤ ir) =
        (s.crossed, s.adjacent, s.above, s.inside) in
      elim (Bool-cases (leb j k)) [
        | inr left ↦
            let right : leb k j ≡ true = ground arith in
            let (wide, wide') : (l ≤ l) × (j - 1 ≤ ir) = omega arith in
            let r =
              ih l (j - 1) h (ground arith) (omega arith) (omega arith)
                (left-Bounded o d l ir k ys b' n' i j s) in
            (
              r.0,
              rw (more, parts, left, right) r.1,
              Within_trans o d w (Within_wider o d wide wide' r.2),
              r.3,
            )
        | inl right ↦ elim (Bool-cases (leb k j)) [
          | inl left ↦
              let e : j ≡ k = ground arith in
              let (few, empty) : (leb (j - 1) (i + 1) ≡ true) × ((j - 1 == i + 1) ≡ false) =
                ground arith in
              (
                ys,
                rw (more, parts, right, left, few, empty) refl,
                w,
                pivot-IsSelected o d l ir k ys b' n' i j s e,
              )
          | inr left ↦
              let (wide, wide') : (l ≤ i) × (ir ≤ ir) = omega arith in
              let r =
                ih i ir (ground arith) g n' (omega arith)
                  (right-Bounded o d l ir k ys b' n' i j s) in
              (
                r.0,
                rw (more, parts, right, left) r.1,
                Within_trans o d w (Within_wider o d wide wide' r.2),
                r.3,
              )
        ]
      ]

  select_from :
      (fuel l ir k : ℕ) (xs : List A)
      → l ≤ k
      → k ≤ ir
      → ir < length xs
      → ir ≤ l + fuel
      → Bounded o d l ir xs
      → Selects (suc fuel) l ir k xs
  select_from zero l ir k xs h g n enough b = select_small zero l ir k xs h g n b (ground arith)
  select_from (suc fuel) l ir k xs h g n enough b = elim (Bool-cases (leb ir (l + 1))) [
    | inl few ↦ select_small (suc fuel) l ir k xs h g n b few
    | inr more ↦
        let r = split-Halves o d l ir xs (ground arith) n in
        select_next fuel l ir k r.0 r.1 xs r.2 h g n enough b more r.3 r.4 r.5
          (λ l' ir' h' g' n' e' b'. select_from fuel l' ir' k r.2 h' g' n' e' b')
  ]

  -- For an index in the array, and elements whose < never holds both ways and whose "not less" is
  -- transitive, k_select ends without leaving the array, and only permutes it. It returns the element
  -- that then stands at the index; none before it is greater, and none behind it less.
  pub k_select-IsSelected :
      (k : ℕ) (xs : List A)
      → k < length xs
      → (ys : List A) × (k_select o d xs (pos k) ≡ some (item o d ys k, ys))
        × Perm ys xs
        × IsSelected o d k ys
  unfolding k_select
  k_select-IsSelected k xs h =
      let inside : leb (length xs) k ≡ false = ground arith in
      let n : length xs ≡ suc (length xs - 1) = omega arith in
      let (p, q, s) : (k ≤ length xs - 1) × (length xs - 1 < length xs) × (0 ≤ k) = omega arith in
      let r = select_from (length xs - 1) 0 (length xs - 1) k xs s p q (omega arith) (record {
        left = λ p q e. absurd (omega arith);
        right = λ p q e f g. absurd (omega arith);
      }) in
      let w = r.2 in
      let found : select o (length xs) 0 (length xs - 1) k xs ≡ some r.0 =
        subst (λ fuel. select o fuel 0 (length xs - 1) k xs ≡ some r.0) (sym n) r.1 in
      let long : k < length r.0 = rw (w.same_length) h in
      (r.0, rw (inside, found) (rw (get_elem?-eq-get_or r.0 k d long) refl), w.permuted, r.3)
