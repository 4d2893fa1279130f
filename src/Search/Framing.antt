-- ===== src/Search/Framing.antt =====
-- The search on bytes that are laid out as noise, a frame and what follows.
use camannex.Base.{
  ℕ, zero, suc, ◌+◌, ◌≤◌, ◌<◌, ◌≡◌, ◌≢◌, refl, sym, ◌∙◌, [], ◌∷◌, ◌++◌, arith, Bytes, All, length,
  get_or, length-append,
}
use camannex.Base.Int.{pos}
use native.Mathlib.Nat.{add-zero}
use camannex.Search.{find_flag}
use camannex.Search.First.{OccursAt, find_flag_at}

pub get_or-append :
    (xs ys : Bytes) (n i : ℕ) → n ≡ length xs + i → get_or (xs ++ ys) n 0 ≡ get_or ys i 0
get_or-append [] ys n i e = let e' : n ≡ i = omega arith in rw e'
get_or-append (x ∷ xs) ys zero i e = absurd (omega arith)
get_or-append (x ∷ xs) ys (suc n) i e = get_or-append xs ys n i (omega arith)

pub get_or-append_left :
    (xs ys : Bytes) (n : ℕ) → n < length xs → get_or (xs ++ ys) n 0 ≡ get_or xs n 0
get_or-append_left [] ys n h = absurd (omega arith)
get_or-append_left (x ∷ xs) ys zero h = refl
get_or-append_left (x ∷ xs) ys (suc n) h = get_or-append_left xs ys n (omega arith)

-- No byte of the list is `b`.
abbrev pub Lacks : ℕ → Bytes → Type 0
Lacks b = All (λ c. c ≢ b)

pub get_or-Lacks :
    (b : ℕ) (xs ys : Bytes) (n : ℕ) → Lacks b xs → n < length xs → get_or (xs ++ ys) n 0 ≢ b
get_or-Lacks b [] ys n l h = absurd (omega arith)
get_or-Lacks b (x ∷ xs) ys zero (l, ls) h = l
get_or-Lacks b (x ∷ xs) ys (suc n) (l, ls) h = get_or-Lacks b xs ys n ls (omega arith)

-- A flag whose first byte does not stand before it is found where it stands.
pub find_flag_behind :
    (f : ℕ) (fs before rest : Bytes) (from : ℕ)
    → ((n : ℕ) → from ≤ n → n < length before → get_or (before ++ (f ∷ fs ++ rest)) n 0 ≢ f)
    → from ≤ length before
    → find_flag (f ∷ fs) (before ++ (f ∷ fs ++ rest)) (length (f ∷ fs)) from ≡ pos (length before)
find_flag_behind f fs before rest from clean le =
    let buf : Bytes = before ++ (f ∷ fs ++ rest) in
    let here : OccursAt (f ∷ fs) buf (length (f ∷ fs)) (length before) = (
      omega (arith, length-append before (f ∷ fs ++ rest), length-append (f ∷ fs) rest),
      λ k h. sym (
          get_or-append before (f ∷ fs ++ rest) (length before + k) k refl
          ∙ get_or-append_left (f ∷ fs) rest k h),
    ) in
    find_flag_at (f ∷ fs) buf (length (f ∷ fs)) from (length before) le here
      (λ p lp l o. clean p lp l (sym (rw add-zero at (o.1 0 (omega arith)))))
