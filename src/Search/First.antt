-- ===== src/Search/First.antt =====
-- The search finds the first occurrence of the flag, or there is none.
use camannex.Base.{
  ℕ, zero, suc, ◌+◌, ◌-◌, ◌≤◌, ◌<◌, ◌≡◌, inl, inr, refl, ap, arith, Bytes, true, false, ◌==◌,
  if◌then◌else◌, Bool-cases, length, get_or,
}
use camannex.Base.Int.{ℤ, pos, sub_ℕ, minus_one, leb_ℤ, eqb_ℤ}
use native.Mathlib.Nat.{add-zero, zero-add}
use native.Mathlib.Decide.{ℕ_discrete, dec_lt}
use camannex.Search.{match_flag, scan, find_flag}

-- The first `len` bytes of the flag stand in the buffer from `p` on.
abbrev pub OccursAt : Bytes → Bytes → ℕ → ℕ → Type 0
OccursAt flag buf len p =
    (p + len ≤ length buf) × ((k : ℕ) → k < len → get_or flag k 0 ≡ get_or buf (p + k) 0)

match_flag-le : (flag buf : Bytes) (r i j : ℕ) → match_flag flag buf r i j ≤ i + r
unfolding match_flag
match_flag-le flag buf zero i j = omega arith
match_flag-le flag buf (suc r) i j = ground (arith, match_flag-le flag buf r (i + 1) (j + 1))

match_flag_full :
    (flag buf : Bytes) (r i j : ℕ)
    → match_flag flag buf r i j ≡ i + r
    → (k : ℕ) → k < r
    → get_or flag (i + k) 0 ≡ get_or buf (j + k) 0
unfolding match_flag
match_flag_full flag buf zero i j e k h = absurd (omega arith)
match_flag_full flag buf (suc r) i j e zero h = rw (add-zero, add-zero) (ground arith)
match_flag_full flag buf (suc r) i j e (suc k) h =
    elim (Bool-cases (get_or flag i 0 == get_or buf j 0)) [
      | inl same ↦
          let ih = match_flag_full flag buf r (i + 1) (j + 1) (ground arith) k (omega arith) in
          let a : i + suc k ≡ i + 1 + k = omega arith in
          let b : j + suc k ≡ j + 1 + k = omega arith in rw (a, b) ih
      | inr other ↦ absurd (ground arith)
    ]

match_flag_short :
    (flag buf : Bytes) (r i j : ℕ)
    → ((k : ℕ) → k < r → get_or flag (i + k) 0 ≡ get_or buf (j + k) 0)
    → match_flag flag buf r i j ≡ i + r
unfolding match_flag
match_flag_short flag buf zero i j e = omega arith
match_flag_short flag buf (suc r) i j e =
    let first : get_or flag i 0 ≡ get_or buf j 0 = rw (add-zero, add-zero) at (e 0 (omega arith)) in
    ground (arith, first, match_flag_short flag buf r (i + 1) (j + 1) rest)
  where
    rest : (k : ℕ) → k < r → get_or flag (i + 1 + k) 0 ≡ get_or buf (j + 1 + k) 0
    rest k h =
        let a : i + 1 + k ≡ i + suc k = omega arith in
        let b : j + 1 + k ≡ j + suc k = omega arith in rw (a, b) (e (suc k) (omega arith))

-- The scan's answer for the positions from `p` on.
data Found (flag buf : Bytes) (len p : ℕ) : ℤ × ℕ → Type 0 where
  at :
      (q : ℕ)
      → p ≤ q
      → OccursAt flag buf len q
      → ((r : ℕ) → p ≤ r → r < q → ¬ OccursAt flag buf len r)
      → Found flag buf len p (pos len, q + 1)
  nowhere :
      (i : ℤ) (q : ℕ)
      → eqb_ℤ i (pos len) ≡ false
      → ((r : ℕ) → p ≤ r → ¬ OccursAt flag buf len r)
      → Found flag buf len p (i, q)

-- One position that is no occurrence, in front of the others.
Found-extend :
    {flag buf : Bytes} {len p : ℕ} {r : ℤ × ℕ}
    → ¬ OccursAt flag buf len p
    → Found flag buf len (p + 1) r
    → Found flag buf len p r
Found-extend {p} miss (at q le o first) =
    at q (omega arith) o
      λ r h l. elim (ℕ_discrete p r) [ yes e ↦ rw (← e) miss | no ne ↦ first r (omega arith) l ]
Found-extend {p} miss (nowhere i q e none_from) =
    nowhere i q e
      λ r h. elim (ℕ_discrete p r) [ yes e ↦ rw (← e) miss | no ne ↦ none_from r (omega arith) ]

scan_stop : (flag buf : Bytes) (len fuel p : ℕ) → scan flag buf len fuel (pos len) p ≡ (pos len, p)
unfolding scan
scan_stop flag buf len zero p = refl
scan_stop flag buf len (suc fuel) p = ground arith

-- A position at which all of the flag matched is an occurrence.
match-OccursAt :
    (flag buf : Bytes) (len p : ℕ)
    → p + len ≤ length buf
    → match_flag flag buf len 0 p ≡ len
    → OccursAt flag buf len p
match-OccursAt flag buf len p fits e =
    (fits, λ k h. rw zero-add at (match_flag_full flag buf len 0 p (omega arith) k h))

OccursAt-match :
    (flag buf : Bytes) (len p : ℕ) → OccursAt flag buf len p → match_flag flag buf len 0 p ≡ len
OccursAt-match flag buf len p (fits, same) =
    omega (arith, match_flag_short flag buf len 0 p (λ k h. rw zero-add (same k h)))

-- The scan from a position where the last round found nothing.
scan-Found :
    (flag buf : Bytes) (len fuel : ℕ) (i : ℤ) (p : ℕ)
    → eqb_ℤ i (pos len) ≡ false
    → length buf + 1 ≤ fuel + p
    → Found flag buf len p (scan flag buf len fuel i p)
unfolding scan
scan-Found flag buf len zero i p miss enough = nowhere i p miss (λ r h o. omega arith)
scan-Found flag buf len (suc fuel) i p miss enough =
    elim (Bool-cases (leb_ℤ (pos p) (sub_ℕ (length buf) len))) [
      | inr out ↦ rw (miss, out) (nowhere i p miss (λ r h o. ground arith))
      | inl inside ↦ elim (ℕ_discrete (match_flag flag buf len 0 p) len) [
        | yes e ↦
            rw (miss, inside, e, scan_stop flag buf len fuel (p + 1))
              (at p (omega arith) (match-OccursAt flag buf len p (ground arith) e)
                (λ r h l. absurd (omega arith)))
        | no ne ↦
            rw (miss, inside)
              (Found-extend (λ o. ne (OccursAt-match flag buf len p o))
                (scan-Found flag buf len fuel (pos (match_flag flag buf len 0 p)) (p + 1)
                  (ground arith) (omega arith)))
      ]
    ]

-- What the result of a search says.
pub data Answer (flag buf : Bytes) (len from : ℕ) : ℤ → Type 0 where
  first_at :
      (q : ℕ)
      → from ≤ q
      → OccursAt flag buf len q
      → ((r : ℕ) → from ≤ r → r < q → ¬ OccursAt flag buf len r)
      → Answer flag buf len from (pos q)
  absent : ((r : ℕ) → from ≤ r → ¬ OccursAt flag buf len r) → Answer flag buf len from minus_one

pub find_flag-Answer :
    (flag buf : Bytes) (len from : ℕ) → Answer flag buf len from (find_flag flag buf len from)
unfolding find_flag
find_flag-Answer flag buf len from =
    read _ (scan-Found flag buf len (length buf + 1) minus_one from (ground arith) (omega arith))
  where
    read :
        (r : ℤ × ℕ)
        → Found flag buf len from r
        → Answer flag buf len from (if eqb_ℤ r.0 (pos len) then pos (r.1 - 1) else minus_one)
    read r (at q le o first) =
        let same : eqb_ℤ (pos len) (pos len) ≡ true = ground arith in
        let back : q + 1 - 1 ≡ q = omega arith in rw (same, back) (first_at q le o first)
    read r (nowhere i q e none_from) = rw e (absent none_from)

-- An occurrence with none before it is what the search finds.
Answer-unique :
    {flag buf : Bytes} {len from : ℕ} {r : ℤ} (q : ℕ)
    → from ≤ q
    → OccursAt flag buf len q
    → ((p : ℕ) → from ≤ p → p < q → ¬ OccursAt flag buf len p)
    → Answer flag buf len from r
    → r ≡ pos q
Answer-unique q le o first (first_at p lp op firstp) = elim (dec_lt p q) [
  | yes l ↦ absurd (first p lp l op)
  | no nl ↦ elim (dec_lt q p) [ yes l ↦ absurd (firstp q le l o) | no nl2 ↦ ap pos (omega arith) ]
]
Answer-unique q le o first (absent none_from) = absurd (none_from q le o)

pub find_flag_at :
    (flag buf : Bytes) (len from q : ℕ)
    → from ≤ q
    → OccursAt flag buf len q
    → ((p : ℕ) → from ≤ p → p < q → ¬ OccursAt flag buf len p)
    → find_flag flag buf len from ≡ pos q
find_flag_at flag buf len from q le o first =
    Answer-unique q le o first (find_flag-Answer flag buf len from)
