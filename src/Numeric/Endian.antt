-- ===== src/Numeric/Endian.antt =====
-- SwapEndian of src/AMath.cpp: the order of the bytes in each cell of an array.
use camannex.Base.{
  ℕ, zero, suc, ◌+◌, ◌-◌, ◌*◌, ◌%◌, ◌<◌, ◌≤◌, ◌≡◌, refl, ◌∙◌, Bytes, false, not, ltb, leb, ◌==◌,
  if◌then◌else◌, length, get_or, set, get_or-set, length-set, arith, Bool-cases, inl, inr, ◌&&◌,
  subst,
}
use native.Mathlib.Nat.{suc-mul, zero-add}

-- `ch = *p1; *p1 = *p2; *p2 = ch`
unfoldable pub swap : ℕ → ℕ → Bytes → Bytes
swap p1 p2 m = set (set m p1 (get_or m p2 0)) p2 (get_or m p1 0)

-- `for (...; p1 < p2; p1++, p2--)`, in at most so many rounds.
unfoldable pub swap_loop : ℕ → ℕ → ℕ → Bytes → Bytes
unfolding swap
swap_loop zero p1 p2 m = m
swap_loop (suc rounds) p1 p2 m =
    let later = swap_loop rounds (p1 + 1) (p2 - 1) (swap p1 p2 m) in if ltb p1 p2 then later else m

-- The cells from `p` on. A cell needs no more rounds than it has bytes.
unfoldable pub swap_cells : ℕ → ℕ → ℕ → Bytes → Bytes
unfolding swap_loop
swap_cells ncell zero p m = m
swap_cells ncell (suc n) p m =
    swap_cells ncell n (p + ncell) (swap_loop ncell p (p + (ncell - 1)) m)

-- SwapEndian, for counts that are not negative.
unfoldable pub swap_endian : Bytes → ℕ → ℕ → Bytes
unfolding swap_cells
swap_endian array nelement ncell =
    if not (ncell % 2 == 0)
    then array
    else if ncell * nelement == 0
    then array
    else swap_cells ncell nelement 0 array

length-swap : (i j : ℕ) (m : Bytes) → length (swap i j m) ≡ length m
unfolding swap
length-swap i j m =
    length-set (set m i (get_or m j 0)) j (get_or m i 0) ∙ length-set m i (get_or m j 0)

length-swap_loop : (rounds p1 p2 : ℕ) (m : Bytes) → length (swap_loop rounds p1 p2 m) ≡ length m
unfolding swap_loop
length-swap_loop zero p1 p2 m = refl
length-swap_loop (suc rounds) p1 p2 m = elim (Bool-cases (ltb p1 p2)) [
  | inl more ↦
      rw more (length-swap_loop rounds (p1 + 1) (p2 - 1) (swap p1 p2 m) ∙ length-swap p1 p2 m)
  | inr done ↦ rw done refl
]

get_or-swap :
    (i j k : ℕ) (m : Bytes)
    → i < length m
    → j < length m
    → get_or (swap i j m) k 0
      ≡ (if j == k then get_or m i 0 else if i == k then get_or m j 0 else get_or m k 0)
unfolding swap
get_or-swap i j k m hi hj =
    rw
      (
        get_or-set (set m i (get_or m j 0)) j k (get_or m i 0) 0
            (rw (length-set m i (get_or m j 0)) hj),
        get_or-set m i k (get_or m j 0) 0 hi,
      )
      refl

get_or_middle :
    (p1 p2 k : ℕ) (m : Bytes)
    → p2 ≤ p1
    → get_or m k 0 ≡ (if leb p1 k && leb k p2 then get_or m (p1 + p2 - k) 0 else get_or m k 0)
get_or_middle p1 p2 k m h = elim (Bool-cases (leb p1 k && leb k p2)) [
  | inl inside ↦ let e : p1 + p2 - k ≡ k = ground arith in rw (inside, e) refl
  | inr outside ↦ rw outside refl
]

-- The loop reverses the bytes from `p1` to `p2` and leaves all others.
get_or-swap_loop :
    (rounds p1 p2 k : ℕ) (m : Bytes)
    → p2 < length m
    → p2 ≤ p1 + rounds
    → get_or (swap_loop rounds p1 p2 m) k 0
      ≡ (if leb p1 k && leb k p2 then get_or m (p1 + p2 - k) 0 else get_or m k 0)
unfolding swap_loop
get_or-swap_loop zero p1 p2 k m h few = get_or_middle p1 p2 k m (omega arith)
get_or-swap_loop (suc rounds) p1 p2 k m h few = elim (Bool-cases (ltb p1 p2)) [
  | inr done ↦ rw done (get_or_middle p1 p2 k m (ground arith))
  | inl more ↦
      let lt : p1 < p2 = ground arith in
      let (a, b) : (p1 < length m) × (p2 - 1 < length (swap p1 p2 m)) =
        omega (arith, length-swap p1 p2 m) in
      let inner = get_or-swap_loop rounds (p1 + 1) (p2 - 1) k (swap p1 p2 m) b (omega arith) in
      let index : p1 + 1 + (p2 - 1) - k ≡ p1 + p2 - k = omega arith in
      rw more (
        ground
          (arith, inner, index, get_or-swap p1 p2 k m a h, get_or-swap p1 p2 (p1 + p2 - k) m a h))
]

length-swap_cells : (c n p : ℕ) (m : Bytes) → length (swap_cells c n p m) ≡ length m
unfolding swap_cells
length-swap_cells c zero p m = refl
length-swap_cells c (suc n) p m =
    length-swap_cells c n (p + c) (swap_loop c p (p + (c - 1)) m)
    ∙ length-swap_loop c p (p + (c - 1)) m

-- One cell: its bytes are reversed, those before and behind it stay.
get_or-swap_cell :
    (c p k : ℕ) (m : Bytes)
    → 0 < c
    → p + c ≤ length m
    → get_or (swap_loop c p (p + (c - 1)) m) k 0
      ≡ (if leb p k && ltb k (p + c) then get_or m (p + (p + (c - 1)) - k) 0 else get_or m k 0)
get_or-swap_cell c p k m some_bytes fits =
    let loop = get_or-swap_loop c p (p + (c - 1)) k m (omega arith) (omega arith) in
    ground (arith, loop)

-- Bytes before the first cell stay.
swap_cells_before :
    (c n p k : ℕ) (m : Bytes)
    → 0 < c
    → p + n * c ≤ length m
    → k < p
    → get_or (swap_cells c n p m) k 0 ≡ get_or m k 0
unfolding swap_cells
swap_cells_before c zero p k m some_bytes fits h = refl
swap_cells_before c (suc n) p k m some_bytes fits h =
    let (a, b) : (p + c ≤ length m) × (p + c + n * c ≤ length (swap_loop c p (p + (c - 1)) m)) =
      omega (arith, suc-mul n c, length-swap_loop c p (p + (c - 1)) m) in
    swap_cells_before c n (p + c) k (swap_loop c p (p + (c - 1)) m) some_bytes b (omega arith)
    ∙ ground (arith, get_or-swap_cell c p k m some_bytes a)

swap_cells_inside :
    (c n p i r : ℕ) (m : Bytes)
    → p + n * c ≤ length m
    → i < n
    → r < c
    → get_or (swap_cells c n p m) (p + i * c + r) 0 ≡ get_or m (p + i * c + (c - 1 - r)) 0
unfolding swap_cells
swap_cells_inside c zero p i r m fits hi hr = absurd (omega arith)
swap_cells_inside c (suc n) p zero r m fits hi hr =
    let m1 = swap_loop c p (p + (c - 1)) m in
    let (a, b) : (p + c ≤ length m) × (p + c + n * c ≤ length m1) =
      omega (arith, suc-mul n c, length-swap_loop c p (p + (c - 1)) m) in
    let here : p + 0 * c + r ≡ p + r = omega arith in
    let there : p + 0 * c + (c - 1 - r) ≡ p + (p + (c - 1)) - (p + r) = omega arith in
    rw (here, there)
      (swap_cells_before c n (p + c) (p + r) m1 (omega arith) b (omega arith)
        ∙ ground (arith, get_or-swap_cell c p (p + r) m (omega arith) a))
swap_cells_inside c (suc n) p (suc i) r m fits hi hr =
    let m1 = swap_loop c p (p + (c - 1)) m in
    let (a, b) : (p + c ≤ length m) × (p + c + n * c ≤ length m1) =
      omega (arith, suc-mul n c, length-swap_loop c p (p + (c - 1)) m) in
    let here : p + suc i * c + r ≡ p + c + i * c + r = omega (arith, suc-mul i c) in
    let there : p + suc i * c + (c - 1 - r) ≡ p + c + i * c + (c - 1 - r) =
      omega (arith, suc-mul i c) in
    rw (here, there)
      (swap_cells_inside c n (p + c) i r m1 b (omega arith) hr
        ∙ ground (arith, get_or-swap_cell c p (p + c + i * c + (c - 1 - r)) m (omega arith) a))

mul_positive : (a b : ℕ) → 0 < a → 0 < b → 0 < a * b
mul_positive (suc a) (suc b) h k = omega (arith, suc-mul a (suc b))
mul_positive zero b h k = absurd (omega arith)
mul_positive (suc a) zero h k = absurd (omega arith)

swap_endian-cells :
    (array : Bytes) (nelement ncell i : ℕ)
    → ncell % 2 ≡ 0
    → i < nelement
    → 0 < ncell
    → swap_endian array nelement ncell ≡ swap_cells ncell nelement 0 array
unfolding swap_endian
swap_endian-cells array nelement ncell i even hi some_bytes =
    let work : (ncell * nelement == 0) ≡ false =
      ground (arith, mul_positive ncell nelement some_bytes (omega arith)) in
    rw (even, work) refl

-- For cells of an even size that lie within the array, the byte at each place of a cell becomes the one
-- at the opposite place of that cell.
pub swap_endian-reverses :
    (array : Bytes) (nelement ncell i r : ℕ)
    → ncell % 2 ≡ 0
    → nelement * ncell ≤ length array
    → i < nelement
    → r < ncell
    → get_or (swap_endian array nelement ncell) (i * ncell + r) 0
      ≡ get_or array (i * ncell + (ncell - 1 - r)) 0
swap_endian-reverses array nelement ncell i r even fits hi hr =
    rw (swap_endian-cells array nelement ncell i even hi (omega arith)) (
      subst
        (λ o.
          get_or (swap_cells ncell nelement 0 array) (o + r) 0
          ≡ get_or array (o + (ncell - 1 - r)) 0)
        (zero-add (i * ncell)) (swap_cells_inside ncell nelement 0 i r array (omega arith) hi hr))

-- Swapped twice, every byte of the cells is back in its place.
pub swap_endian-swap_endian :
    (array : Bytes) (nelement ncell i r : ℕ)
    → ncell % 2 ≡ 0
    → nelement * ncell ≤ length array
    → i < nelement
    → r < ncell
    → get_or (swap_endian (swap_endian array nelement ncell) nelement ncell) (i * ncell + r) 0
      ≡ get_or array (i * ncell + r) 0
swap_endian-swap_endian array nelement ncell i r even fits hi hr =
    let same : length (swap_endian array nelement ncell) ≡ length array =
      rw (swap_endian-cells array nelement ncell i even hi (omega arith))
        (length-swap_cells ncell nelement 0 array) in
    let back : ncell - 1 - (ncell - 1 - r) ≡ r = omega arith in
    swap_endian-reverses (swap_endian array nelement ncell) nelement ncell i r even
      (omega (arith, same)) hi hr
    ∙ (swap_endian-reverses array nelement ncell i (ncell - 1 - r) even fits hi (omega arith)
        ∙ rw back refl)
