-- ===== src/Numeric/Convolve/Writes.antt =====
-- Stretches of the kernel that the loops of MakeKernel write.
use camannex.Base.{
  ℕ, ◌+◌, ◌-◌, ◌*◌, ◌/◌, ◌%◌, ◌<◌, ◌≤◌, ◌≡◌, ◌⊎◌, refl, sym, ◌∙◌, ap, List, some, ltb, length,
  get_or, set, length-set, get_or-set, lt→ltb, arith, Bool-cases, inl, inr, subst,
}
use native.Mathlib.Nat.{add-mul-mod_self_right, add-mul-div_right, mod-eq_of_lt, div-eq_of_lt}
use camannex.Base.Int.{pos}
use camannex.Base.Real.{Real, Libm}
use camannex.Numeric.Convolve.{store}

-- A position in a row, by column and row.
pub row_of : (m w y : ℕ) → y * w ≤ m → m < y * w + w → (m % w ≡ m - y * w) × (m / w ≡ y)
row_of m w y h g =
    let (e, pos_w, small) : (m ≡ m - y * w + y * w) × (0 < w) × (m - y * w < w) = omega arith in
    let r = m - y * w in
    (
      subst (λ z. z % w ≡ r) (sym e) (add-mul-mod_self_right r y w ∙ mod-eq_of_lt small),
      subst (λ z. z / w ≡ y) (sym e)
          (add-mul-div_right r y pos_w ∙ (ap (λ z. z + y) (div-eq_of_lt small) ∙ omega arith)),
    )

module _ (real : Real) (libm : Libm real.R) where
  open real use {R, add, div, of_int}

  abbrev pub cell : List R → ℕ → R
  cell k m = get_or k m (of_int (pos 0))

  -- So many cells from a position on are written, by their positions, and the others stay.
  pub record Writes (start count : ℕ) (f : ℕ → R) (k k' : List R) : Type 0 where
    pub same_length : length k' ≡ length k
    pub inside : (m : ℕ) → start ≤ m → m < start + count → cell k' m ≡ f m
    pub outside : (m : ℕ) → (m < start) ⊎ (start + count ≤ m) → cell k' m ≡ cell k m

  pub Writes-none : (start : ℕ) (f : ℕ → R) (k : List R) → Writes start 0 f k k
  Writes-none start f k = record {
    same_length = refl;
    inside = λ m h g. absurd (omega arith);
    outside = λ m h. refl;
  }

  pub Writes-one :
      (start : ℕ) (f : ℕ → R) (v : R) (k : List R)
      → start < length k
      → v ≡ f start
      → Writes start 1 f k (set k start v)
  Writes-one start f v k h e = record {
    same_length = length-set k start v;
    inside = λ m a b.
        let same : start ≡ m = omega arith in
        subst (λ m. cell (set k start v) m ≡ f m) same
          (ground (arith, get_or-set k start start v (of_int (pos 0)) h) ∙ e);
    outside = λ m a. ground (arith, get_or-set k start m v (of_int (pos 0)) h);
  }

  pub Writes-trans :
      (start p q : ℕ) (f g : ℕ → R) (k k1 k2 : List R)
      → Writes start p f k k1
      → Writes (start + p) q g k1 k2
      → ((m : ℕ) → start + p ≤ m → m < start + p + q → g m ≡ f m)
      → Writes start (p + q) f k k2
  Writes-trans start p q f g k k1 k2 w v same = record {
    same_length = v.same_length ∙ w.same_length;
    inside = λ m a b. elim (Bool-cases (ltb m (start + p))) [
      | inl first ↦ v.outside m (inl (ground arith)) ∙ w.inside m a (ground arith)
      | inr second ↦ v.inside m (ground arith) (omega arith) ∙ same m (ground arith) (omega arith)
    ];
    outside = λ m a. v.outside m (ground arith) ∙ w.outside m (ground arith);
  }

  pub store-some :
      (i : ℕ) (v : R) (k : List R) → i < length k → store real libm i v k ≡ some (set k i v)
  unfolding store
  store-some i v k h = rw (lt→ltb i (length k) h) refl
