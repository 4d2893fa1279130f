-- ===== src/Numeric/Select/Partition.antt =====
-- The partition loop of k_select, and its branch of three elements or more.
use camannex.Base.{
  ℕ, zero, suc, ◌+◌, ◌-◌, ◌<◌, ◌≤◌, ◌≡◌, refl, List, true, false, some, leb, ◌==◌, length, arith,
  Bool-cases, inl, inr,
}
use camannex.Numeric.Select.{Order, scan_up, scan_down, partition}
use camannex.Numeric.Select.Exchange.{
  Le, item, exchanged, item-exchanged, exchanged-Within, Within, Within_refl, Within_trans,
  Within_wider, swap-some,
}
use camannex.Numeric.Select.Scan.{scan_up-stops, scan_down-stops}

module _ {A : Type 0} (o : Order A) (d : A) where
  -- Up to `i` nothing is above `a`, and from `j` on nothing below it.
  pub record Parted (l ir : ℕ) (a : A) (i j : ℕ) (xs : List A) : Type 0 where
    pub low : (m : ℕ) → l ≤ m → m ≤ i → Le o d (item o d xs m) a
    pub high : (m : ℕ) → j ≤ m → m ≤ ir → Le o d a (item o d xs m)

  -- The loop ends with the scans crossed: before `i` nothing is above `a`, behind `j` nothing below.
  pub record Crossed (l ir : ℕ) (a : A) (i j : ℕ) (xs : List A) : Type 0 where
    pub crossed : j ≤ i
    pub adjacent : i ≤ j + 1
    pub above : l < j
    pub inside : i ≤ ir
    pub before : (m : ℕ) → l ≤ m → m < i → Le o d (item o d xs m) a
    pub behind : (m : ℕ) → j < m → m ≤ ir → Le o d a (item o d xs m)
    pub at : Le o d (item o d xs j) a
    pub stop : Le o d a (item o d xs i)

  -- Where the two scans end.
  record Scanned (l ir : ℕ) (a : A) (i j : ℕ) (xs : List A) (i' j' : ℕ) : Type 0 where
    up : i < i'
    up_to : i' ≤ j
    down : j' < j
    near : i' ≤ j' + 1
    lower : (m : ℕ) → l ≤ m → m < i' → Le o d (item o d xs m) a
    upper : (m : ℕ) → j' < m → m ≤ ir → Le o d a (item o d xs m)
    at : Le o d (item o d xs j') a
    stop : Le o d a (item o d xs i')

  module _ (l ir : ℕ) (a : A) (i j : ℕ) (xs : List A) where
    scan_down_from :
        (i' : ℕ)
        → (scan_up o (length xs) a i xs ≡ some i')
          × (i < i')
          × (i' ≤ j)
          × Le o d a (item o d xs i')
          × ((m : ℕ) → i < m → m < i' → Le o d (item o d xs m) a)
        → l < i
        → j ≤ ir
        → ir < length xs
        → Parted l ir a i j xs
        → (j' : ℕ) × (scan_down o (length xs) a j xs ≡ some j') × Scanned l ir a i j xs i' j'
    scan_down_from i' (found, p, q, stop, before) h n w parted =
        let lower : (m : ℕ) → l ≤ m → m < i' → Le o d (item o d xs m) a = λ m e f.
          elim (Bool-cases (leb m i)) [
            | inl old ↦ parted.low m e (ground arith)
            | inr new ↦ before m (ground arith) f
          ] in
        pack (
          scan_down-stops o d xs a (length xs) (i' - 1) j (omega arith) (omega arith) (omega arith)
            (lower (i' - 1) (omega arith) (omega arith)))
      where
        pack :
            (j' : ℕ) × (scan_down o (length xs) a j xs ≡ some j')
              × (i' - 1 ≤ j')
              × (j' < j)
              × Le o d (item o d xs j') a
              × ((m : ℕ) → j' < m → m < j → Le o d a (item o d xs m))
            → (j' : ℕ) × (scan_down o (length xs) a j xs ≡ some j') × Scanned l ir a i j xs i' j'
        pack (j', found', r, s, at, after) = (
          j',
          found',
          record {
            up = p;
            up_to = q;
            down = s;
            near = omega arith;
            lower = λ m e f. elim (Bool-cases (leb m i)) [
              | inl old ↦ parted.low m e (ground arith)
              | inr new ↦ before m (ground arith) f
            ];
            upper = λ m e f. elim (Bool-cases (leb j m)) [
              | inl old ↦ parted.high m (ground arith) f
              | inr new ↦ after m e (ground arith)
            ];
            at = at;
            stop = stop;
          },
        )

    module _ (i' j' : ℕ) (sc : Scanned l ir a i j xs i' j') (h : l < i) (n : j ≤ ir) where
      stops_Crossed : (leb j' i') ≡ true → Crossed l ir a i' j' xs
      stops_Crossed done = record {
        crossed = ground arith;
        adjacent = sc.near;
        above = omega arith;
        inside = omega arith;
        before = sc.lower;
        behind = sc.upper;
        at = sc.at;
        stop = sc.stop;
      }

      goes_on_Parted :
          ir < length xs → (leb j' i') ≡ false → Parted l ir a i' j' (exchanged o d i' j' xs)
      goes_on_Parted w more =
          let less : i' < j' = ground arith in
          let swapped = λ (m : ℕ). item-exchanged o d i' j' m xs (omega arith) (omega arith) in
          record {
            low = λ m e f.
                let other : (j' == m) ≡ false = ground arith in
                elim (Bool-cases (i' == m)) [
                  | inl same ↦ rw (swapped m, other, same) sc.at
                  | inr before ↦ rw (swapped m, other, before) (sc.lower m e (ground arith))
                ];
            high = λ m e f.
                let other : (i' == m) ≡ false = ground arith in
                elim (Bool-cases (j' == m)) [
                  | inl same ↦ rw (swapped m, same) sc.stop
                  | inr behind ↦ rw (swapped m, behind, other) (sc.upper m (ground arith) f)
                ];
          }

  -- What the loop returns, from `i` and `j` on.
  abbrev pub Partitions : (fuel l ir : ℕ) → A → (i j : ℕ) → List A → Type 0
  Partitions fuel l ir a i j xs =
      (i' j' : ℕ) × (ys : List A) × (partition o fuel a i j xs ≡ some (i', j', ys))
      × Within o d (i + 1) ir xs ys
      × Crossed l ir a i' j' ys

  partition_next :
      (fuel l ir : ℕ) (a : A) (i j : ℕ) (xs : List A) (i' j' : ℕ)
      → l < i
      → j ≤ ir
      → ir < length xs
      → j ≤ i + suc fuel
      → scan_up o (length xs) a i xs ≡ some i'
      → scan_down o (length xs) a j xs ≡ some j'
      → Scanned l ir a i j xs i' j'
      → ((ys : List A)
          → l < i'
          → i' < j'
          → j' ≤ ir
          → ir < length ys
          → j' ≤ i' + fuel
          → Parted l ir a i' j' ys
          → Partitions fuel l ir a i' j' ys)
      → Partitions (suc fuel) l ir a i j xs
  unfolding partition
  partition_next fuel l ir a i j xs i' j' h n w enough up down sc ih =
      elim (Bool-cases (leb j' i')) [
        | inl done ↦ (
          i',
          j',
          xs,
          rw (up, down, done) refl,
          Within_refl o d (i + 1) ir xs,
          stops_Crossed l ir a i j xs i' j' sc h n done,
        )
        | inr more ↦
            let less : i' < j' = ground arith in
            let (wide, far) : (i' < length xs) × (j' < length xs) = omega arith in
            let once =
              exchanged-Within o d (i + 1) ir i' j' xs w (omega arith, omega arith)
                (omega arith, omega arith) in
            let wider : (i + 1 ≤ i' + 1) × (ir ≤ ir) = omega arith in
            let r =
              ih (exchanged o d i' j' xs) (omega arith) less (omega arith)
                (omega (arith, once.same_length)) (omega arith)
                (goes_on_Parted l ir a i j xs i' j' sc h n w more) in
            (
              r.0,
              r.1,
              r.2,
              rw (up, down, more, swap-some o d i' j' xs wide far) (r.3),
              Within_trans o d once (Within_wider o d (wider.0) (wider.1) (r.4)),
              r.5,
            )
      ]

  pub partition-Crossed :
      (fuel l ir : ℕ) (a : A) (i j : ℕ) (xs : List A)
      → l < i
      → i < j
      → j ≤ ir
      → ir < length xs
      → j ≤ i + fuel
      → Parted l ir a i j xs
      → Partitions fuel l ir a i j xs
  partition-Crossed zero l ir a i j xs h g n w enough parted = absurd (omega arith)
  partition-Crossed (suc fuel) l ir a i j xs h g n w enough parted =
      let up =
        scan_up-stops o d xs a (length xs) i j g (omega arith) (omega arith)
          (parted.high j (omega arith) n) in
      let down = scan_down_from l ir a i j xs up.0 (up.1, up.2, up.3, up.4, up.5) h n w parted in
      let sc = down.2 in
      partition_next fuel l ir a i j xs up.0 down.0 h n w enough up.1 down.1 sc
        (partition-Crossed fuel l ir a up.0 down.0)
