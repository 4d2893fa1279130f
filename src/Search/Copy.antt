-- ===== src/Search/Copy.antt =====
-- The copying loop takes the bytes that it names.
use camannex.Base.{
  ℕ, zero, suc, ◌+◌, ◌≤◌, ◌≡◌, refl, ap, [], ◌∷◌, arith, Bytes, length, get_or, take, drop,
}
use camannex.Search.{copy}

drop_step :
    (buf : Bytes) (j : ℕ) → suc j ≤ length buf → drop j buf ≡ get_or buf j 0 ∷ drop (suc j) buf
drop_step [] j h = absurd (omega arith)
drop_step (x ∷ buf) zero h = refl
drop_step (x ∷ buf) (suc j) h = drop_step buf j (omega arith)

pub copy-take-drop :
    (buf : Bytes) (n j : ℕ) → j + n ≤ length buf → copy buf n j ≡ take n (drop j buf)
unfolding copy
copy-take-drop buf zero j h = refl
copy-take-drop buf (suc n) j h =
    let next : j + 1 ≡ suc j = omega arith in
    rw (drop_step buf j (omega arith), next)
      (ap (◌∷◌ (get_or buf j 0)) (copy-take-drop buf n (suc j) (omega arith)))
