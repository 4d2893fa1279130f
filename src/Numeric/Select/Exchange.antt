-- ===== src/Numeric/Select/Exchange.antt =====
-- What the exchanges of k_select leave in the array.
use mathlib.Core.List.{Perm}
use mathlib.Core.List.Perm
use camannex.Base.{
  ℕ, zero, suc, ◌<◌, ◌≤◌, ◌≡◌, ◌⊎◌, refl, ◌∙◌, List, [], ◌∷◌, false, some, ltb, ◌==◌, if◌then◌else◌,
  length, get_or, set, length-set, get_or-set, get_elem?-eq-get_or, lt→ltb, arith, Bool-cases, inl,
  inr,
}
use camannex.Numeric.Select.{Order, store, swap, arrange}

-- Writing an element trades it for the one that stood there.
set-perm {ℓ} :
    {A : Type ℓ} (xs : List A) (i : ℕ) (v d : A)
    → i < length xs
    → Perm (get_or xs i d ∷ set xs i v) (v ∷ xs)
set-perm [] i v d h = absurd (omega arith)
set-perm (x ∷ xs) zero v d h = Perm.swap v x xs
set-perm (x ∷ xs) (suc i) v d h =
    Perm.trans (Perm.swap x (get_or xs i d) (set xs i v))
      (Perm.trans (Perm.cons x (set-perm xs i v d (omega arith))) (Perm.swap v x xs))

module _ {A : Type 0} (o : Order A) (d : A) where
  open o use {lt}

  -- `a <= b`, as the code sees it.
  abbrev pub Le : A → A → Type 0
  Le a b = lt b a ≡ false

  pub le_refl : (a : A) → Le a a
  le_refl a = elim (Bool-cases (lt a a)) [
    | inl e ↦ absurd (ground (arith, o.lt_asymm a a e))
    | inr e ↦ e
  ]

  abbrev pub item : List A → ℕ → A
  item xs i = get_or xs i d

  abbrev pub exchanged : ℕ → ℕ → List A → List A
  exchanged i j xs = set (set xs i (item xs j)) j (item xs i)

  -- What stands between `l` and `ir` is permuted, and all else stays.
  pub record Within (l ir : ℕ) (xs ys : List A) : Type 0 where
    pub same_length : length ys ≡ length xs
    pub outside : (m : ℕ) → (m < l) ⊎ (ir < m) → item ys m ≡ item xs m
    pub from : (m : ℕ) → l ≤ m → m ≤ ir → (p : ℕ) × (l ≤ p) × (p ≤ ir) × (item ys m ≡ item xs p)
    pub permuted : Perm ys xs

  pub Within_refl : (l ir : ℕ) (xs : List A) → Within l ir xs xs
  Within_refl l ir xs = record {
    same_length = refl;
    outside = λ m h. refl;
    from = λ m h g. (m, h, g, refl);
    permuted = Perm.refl xs;
  }

  pub Within_trans :
      {l ir : ℕ} {xs ys zs : List A} → Within l ir xs ys → Within l ir ys zs → Within l ir xs zs
  Within_trans w v = record {
    same_length = v.same_length ∙ w.same_length;
    outside = λ m h. v.outside m h ∙ w.outside m h;
    from = λ m h g.
        let (p, a, b, e) = v.from m h g in let (q, c, f, e') = w.from p a b in (q, c, f, e ∙ e');
    permuted = Perm.trans v.permuted w.permuted;
  }

  pub Within_wider :
      {l l' ir ir' : ℕ} {xs ys : List A}
      → l' ≤ l
      → ir ≤ ir'
      → Within l ir xs ys
      → Within l' ir' xs ys
  Within_wider {l} {l'} {ir} {ir'} h g w = record {
    same_length = w.same_length;
    outside = λ m e. w.outside m (ground arith);
    from = λ m a b. elim (Bool-cases (ltb m l)) [
      | inl before ↦ (m, a, b, w.outside m (inl (ground arith)))
      | inr not_before ↦ elim (Bool-cases (ltb ir m)) [
        | inl behind ↦ (m, a, b, w.outside m (inr (ground arith)))
        | inr inside ↦
            let (p, c, e, s) = w.from m (ground arith) (ground arith) in
            (p, omega arith, omega arith, s)
      ]
    ];
    permuted = w.permuted;
  }

  pub item-exchanged :
      (i j m : ℕ) (xs : List A)
      → i < length xs
      → j < length xs
      → item (exchanged i j xs) m
        ≡ (if j == m then item xs i else if i == m then item xs j else item xs m)
  item-exchanged i j m xs h g =
      rw
        (
          get_or-set (set xs i (item xs j)) j m (item xs i) d (rw (length-set xs i (item xs j)) g),
          get_or-set xs i m (item xs j) d h,
        )
        refl

  exchanged-perm :
      (i j : ℕ) (xs : List A) → i < length xs → j < length xs → Perm (exchanged i j xs) xs
  exchanged-perm i j xs h g =
      let kept : item (set xs i (item xs j)) j ≡ item xs j =
        ground (arith, get_or-set xs i j (item xs j) d h) in
      let second : Perm (item (set xs i (item xs j)) j ∷ exchanged i j xs)
          (item xs i ∷ set xs i (item xs j)) =
        set-perm (set xs i (item xs j)) j (item xs i) d (rw (length-set xs i (item xs j)) g) in
      Perm.cons_inv (Perm.trans (rw kept at second) (set-perm xs i (item xs j) d h))

  pub exchanged-Within :
      (l ir i j : ℕ) (xs : List A)
      → ir < length xs
      → (l ≤ i) × (i ≤ ir)
      → (l ≤ j) × (j ≤ ir)
      → Within l ir xs (exchanged i j xs)
  exchanged-Within l ir i j xs n (a, b) (c, e) =
      let at = λ (m : ℕ). item-exchanged i j m xs (omega arith) (omega arith) in
      record {
        same_length = length-set (set xs i (item xs j)) j (item xs i) ∙ length-set xs i (item xs j);
        outside = λ m h. ground (arith, at m);
        from = λ m h g. elim (Bool-cases (j == m)) [
          | inl same ↦ (i, a, b, ground (arith, at m))
          | inr other ↦ elim (Bool-cases (i == m)) [
            | inl same ↦ (j, c, e, ground (arith, at m))
            | inr none_of ↦ (m, h, g, ground (arith, at m))
          ]
        ];
        permuted = exchanged-perm i j xs (omega arith) (omega arith);
      }

  pub store-some :
      (i : ℕ) (v : A) (xs : List A) → i < length xs → store o i v xs ≡ some (set xs i v)
  unfolding store
  store-some i v xs h = rw (lt→ltb i (length xs) h) refl

  pub swap-some :
      (i j : ℕ) (xs : List A)
      → i < length xs
      → j < length xs
      → swap o i j xs ≡ some (exchanged i j xs)
  unfolding swap
  swap-some i j xs h g =
      rw (get_elem?-eq-get_or xs i d h, get_elem?-eq-get_or xs j d g, store-some i (item xs j) xs h)
        (store-some j (item xs i) (set xs i (item xs j)) (rw (length-set xs i (item xs j)) g))

  -- Two elements in order, and what is between `l` and `ir` permuted at these two places.
  pub arrange-some :
      (l ir i j : ℕ) (xs : List A)
      → ir < length xs
      → (l ≤ i) × (i ≤ ir)
      → (l ≤ j) × (j ≤ ir)
      → (i == j) ≡ false
      → (ys : List A) × (arrange o i j xs ≡ some ys)
        × Within l ir xs ys
        × Le (item ys i) (item ys j)
        × ((m : ℕ) → (m == i) ≡ false → (m == j) ≡ false → item ys m ≡ item xs m)
        × ((x : A) → Le (item xs i) x → Le (item xs j) x → Le (item ys i) x × Le (item ys j) x)
        × Le (item xs j) (item ys j)
  unfolding arrange
  arrange-some l ir i j xs n a b ne =
      let (h, g) : (i < length xs) × (j < length xs) = omega arith in
      let at = λ (m : ℕ). item-exchanged i j m xs h g in
      elim (Bool-cases (lt (item xs j) (item xs i))) [
        | inl wrong ↦
            let (p, q) : (item (exchanged i j xs) i ≡ item xs j)
                × (item (exchanged i j xs) j ≡ item xs i) =
              (ground (arith, at i), ground (arith, at j)) in
            let below = o.lt_asymm (item xs j) (item xs i) wrong in
            (
              exchanged i j xs,
              rw (get_elem?-eq-get_or xs i d h, get_elem?-eq-get_or xs j d g, wrong)
                  (swap-some i j xs h g),
              exchanged-Within l ir i j xs n a b,
              rw (p, q) below,
              λ m e f. ground (arith, at m),
              λ x e f. (rw p f, rw q e),
              rw q below,
            )
        | inr right ↦ (
          xs,
          rw (get_elem?-eq-get_or xs i d h, get_elem?-eq-get_or xs j d g, right) refl,
          Within_refl l ir xs,
          right,
          λ m e f. refl,
          λ x e f. (e, f),
          le_refl (item xs j),
        )
      ]
