-- ===== src/Numeric/Select/Scan.antt =====
-- The two scans of k_select, which stop at the sentinels.
use camannex.Base.{
  ℕ, zero, suc, ◌+◌, ◌<◌, ◌≤◌, ◌≡◌, refl, List, some, ◌==◌, length, get_elem?-eq-get_or, arith,
  Bool-cases, inl, inr, subst,
}
use camannex.Numeric.Select.{Order, scan_up, scan_down}
use camannex.Numeric.Select.Exchange.{Le, item}

module _ {A : Type 0} (o : Order A) (d : A) (xs : List A) (a : A) where
  open o use {lt}

  -- With an element behind `i` that is not below `a`, the scan up stops at the first such.
  pub scan_up-stops :
      (fuel i j : ℕ)
      → i < j
      → j < length xs
      → j ≤ i + fuel
      → Le o d a (item o d xs j)
      → (s : ℕ) × (scan_up o fuel a i xs ≡ some s)
        × (i < s)
        × (s ≤ j)
        × Le o d a (item o d xs s)
        × ((m : ℕ) → i < m → m < s → Le o d (item o d xs m) a)
  unfolding scan_up
  scan_up-stops zero i j h n enough stop = absurd (omega arith)
  scan_up-stops (suc fuel) i j h n enough stop = elim (Bool-cases (lt (item o d xs (i + 1)) a)) [
    | inr here ↦ (
      i + 1,
      rw (get_elem?-eq-get_or xs (i + 1) d (omega arith), here) refl,
      omega arith,
      omega arith,
      here,
      λ m e f. absurd (omega arith),
    )
    | inl below ↦ elim (Bool-cases (i + 1 == j)) [
      | inl last ↦ let e : i + 1 ≡ j = ground arith in cc
      | inr more ↦
          let (s, found, lo, hi, at, before) =
            scan_up-stops fuel (i + 1) j (ground arith) n (omega arith) stop in
          (
            s,
            rw (get_elem?-eq-get_or xs (i + 1) d (omega arith), below) found,
            omega arith,
            hi,
            at,
            λ m e f. elim (Bool-cases (i + 1 == m)) [
              | inl first ↦
                  let e : i + 1 ≡ m = ground arith in
                  subst (λ p. Le o d (item o d xs p) a) e (o.lt_asymm (item o d xs (i + 1)) a below)
              | inr later ↦ before m (ground arith) f
            ],
          )
    ]
  ]

  -- With an element before `j` that is not above `a`, the scan down stops at the last such.
  pub scan_down-stops :
      (fuel p j : ℕ)
      → p < j
      → j ≤ length xs
      → j ≤ p + fuel
      → Le o d (item o d xs p) a
      → (s : ℕ) × (scan_down o fuel a j xs ≡ some s)
        × (p ≤ s)
        × (s < j)
        × Le o d (item o d xs s) a
        × ((m : ℕ) → s < m → m < j → Le o d a (item o d xs m))
  unfolding scan_down
  scan_down-stops zero p j h n enough stop = absurd (omega arith)
  scan_down-stops (suc fuel) p zero h n enough stop = absurd (omega arith)
  scan_down-stops (suc fuel) p (suc j) h n enough stop = elim (Bool-cases (lt a (item o d xs j))) [
    | inr here ↦ (
      j,
      rw (get_elem?-eq-get_or xs j d (omega arith), here) refl,
      omega arith,
      omega arith,
      here,
      λ m e f. absurd (omega arith),
    )
    | inl above ↦ elim (Bool-cases (j == p)) [
      | inl last ↦ let e : j ≡ p = ground arith in cc
      | inr more ↦
          let (s, found, lo, hi, at, behind) =
            scan_down-stops fuel p j (ground arith) (omega arith) (omega arith) stop in
          (
            s,
            rw (get_elem?-eq-get_or xs j d (omega arith), above) found,
            lo,
            omega arith,
            at,
            λ m e f. elim (Bool-cases (j == m)) [
              | inl first ↦
                  let e : j ≡ m = ground arith in
                  subst (λ q. Le o d a (item o d xs q)) e (o.lt_asymm a (item o d xs j) above)
              | inr earlier ↦ behind m e (ground arith)
            ],
          )
    ]
  ]
