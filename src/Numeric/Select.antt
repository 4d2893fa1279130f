-- ===== src/Numeric/Select.antt =====
-- k_select of src/AMath.h: the element that has the index k in the sorted array.
pub mod Bounds
pub mod Exchange
pub mod Scan
pub mod Partition
pub mod Median
pub mod Rounds
pub mod Tests
use camannex.Base.{
  ℕ, zero, suc, ◌+◌, ◌-◌, ◌/◌, List, Bool, true, false, Option, none, some, leb, ltb, ◌==◌,
  if◌then◌else◌, ◌>>=◌, length, get_elem?, set, ◌≡◌,
}
use camannex.Base.Int.{ℤ, pos, negsuc}

-- `<` of the elements, for which "not above" is an order.
pub record Order (A : Type 0) : Type 0 where
  pub lt : A → A → Bool
  pub lt_asymm : (a b : A) → lt a b ≡ true → lt b a ≡ false
  pub le_trans : (a b c : A) → lt b a ≡ false → lt c b ≡ false → lt c a ≡ false

module _ {A : Type 0} (o : Order A) where
  open o use {lt}

  -- `array[i] = v`. Out of the array it is undefined, as are all reads there.
  unfoldable pub store : ℕ → A → List A → Option (List A)
  store i v xs = if ltb i (length xs) then some (set xs i v) else none

  -- `t = array[i]; array[i] = array[j]; array[j] = t`
  unfoldable pub swap : ℕ → ℕ → List A → Option (List A)
  swap i j xs = do t ← get_elem? xs i; u ← get_elem? xs j; ys ← store i u xs; store j t ys

  -- `if (array[i] > array[j])` with the exchange of the two under it.
  unfoldable pub arrange : ℕ → ℕ → List A → Option (List A)
  arrange i j xs = do
    x ← get_elem? xs i
    y ← get_elem? xs j
    if lt y x then swap i j xs else some xs

  -- `while (array[++i] < a);` with the last `i`.
  unfoldable pub scan_up : ℕ → A → ℕ → List A → Option ℕ
  scan_up zero a i xs = none
  scan_up (suc fuel) a i xs =
      let more = scan_up fuel a (i + 1) xs in
      get_elem? xs (i + 1) >>= λ x. if lt x a then more else some (i + 1)

  -- `while (array[--j] > a);` with the last `j`.
  unfoldable pub scan_down : ℕ → A → ℕ → List A → Option ℕ
  scan_down zero a j xs = none
  scan_down (suc fuel) a zero xs = none
  scan_down (suc fuel) a (suc j) xs =
      let more = scan_down fuel a j xs in get_elem? xs j >>= λ x. if lt a x then more else some j

  -- `while (1)`: the last `i` and `j`, and the array.
  unfoldable pub partition : ℕ → A → ℕ → ℕ → List A → Option (ℕ × ℕ × List A)
  partition zero a i j xs = none
  partition (suc fuel) a i j xs = do
    i' ← scan_up (length xs) a i xs
    j' ← scan_down (length xs) a j xs
    let rest = swap i' j' xs >>= λ ys. partition fuel a i' j' ys
    if leb j' i' then some (i', j', xs) else rest

  -- The middle element of three behind the first, with the other two in order about it.
  unfoldable pub median : ℕ → ℕ → List A → Option (List A)
  median l ir x0 = do
    x1 ← swap ((l + ir) / 2) (l + 1) x0
    x2 ← arrange l ir x1
    x3 ← arrange (l + 1) ir x2
    arrange l (l + 1) x3

  -- The branch of three elements or more.
  unfoldable pub split : ℕ → ℕ → List A → Option (ℕ × ℕ × List A)
  split l ir x0 = do
    x4 ← median l ir x0
    a ← get_elem? x4 (l + 1)
    (i, j, x5) ← partition (length x4) a (l + 1) ir x4
    v ← get_elem? x5 j
    x6 ← store (l + 1) v x5
    x7 ← store j a x6
    some (i, j, x7)

  -- `do ... while(bwhile)`. `j` is above `l`, so that `j - 1` is not negative.
  unfoldable pub select : ℕ → ℕ → ℕ → ℕ → List A → Option (List A)
  select zero l ir k xs = none
  select (suc fuel) l ir k xs =
      let small = if ir == l + 1 then arrange l ir xs else some xs in
      let rest = split l ir xs >>= λ r.
      select fuel (if leb r.1 k then r.0 else l) (if leb k r.1 then r.1 - 1 else ir) k r.2 in
      if leb ir (l + 1) then small else rest

  -- k_select: the element, and the array as it leaves it. `outside` is `(DType) -1`.
  unfoldable pub k_select : A → List A → ℤ → Option (A × List A)
  k_select outside xs (negsuc k) = some (outside, xs)
  k_select outside xs (pos k) =
      let inside =
        select (length xs) 0 (length xs - 1) k xs >>= λ ys. get_elem? ys k >>= λ v. some (v, ys) in
      if leb (length xs) k then some (outside, xs) else inside
