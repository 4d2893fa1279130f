-- ===== src/Base/Text.antt =====
-- What sprintf writes for `%d`, `%ld` and `%03d`, and a C string as its reader sees it.
use Prim.Native.Nat.{ℕ, zero, suc, ◌+◌, ◌*◌, ◌/◌, ◌%◌, ◌^◌, ◌≤◌, ◌<◌}
use mathlib.Core.Path.{◌≡◌, refl}
use mathlib.Core.List.{[], ◌∷◌, ◌++◌}
use mathlib.Core.Option.{Option, none, some}
use mathlib.Core.Logic.{◌↔◌, inl, inr}
use native.Mathlib.Omega.{arith}
use camannex.Base.Tests.{ltb, ◌==◌, if◌then◌else◌, Bool-cases, ◌>>=◌}
use camannex.Base.Lists.{Bytes, length, length-append}
use camannex.Base.Int.{ℤ, pos, negsuc, pos_part, neg_part}

-- The digits of a number, at most so many of them.
unfoldable pub digits : ℕ → ℕ → Bytes
digits zero n = []
digits (suc rounds) n =
    let front = digits rounds (n / 10) in
    if ltb n 10 then (48 + n) ∷ [] else front ++ (48 + n % 10) ∷ []

-- `%d`. Twenty digits are enough for 64 bits.
unfoldable pub decimal : ℕ → Bytes
decimal n = digits 20 n

unfoldable pub signed : ℤ → Bytes
signed (pos n) = decimal n
signed (negsuc n) = b'-' ∷ decimal (suc n)

-- `%03d` of a number that is not negative
unfoldable pub decimal3 : ℕ → Bytes
decimal3 n =
    if ltb n 10 then b'0' ∷ b'0' ∷ decimal n else if ltb n 100 then b'0' ∷ decimal n else decimal n

-- What `%s` reads: the bytes before the first zero, if there is one in the memory.
unfoldable pub c_string : Bytes → Option Bytes
c_string [] = none
c_string (c ∷ cs) = let more = c_string cs >>= λ s. some (c ∷ s) in if c == 0 then some [] else more

length-digits_step :
    (rounds n : ℕ)
    → length (digits (suc rounds) n) ≡ (if ltb n 10 then 1 else length (digits rounds (n / 10)) + 1)
unfolding digits
length-digits_step rounds n = elim (Bool-cases (ltb n 10)) [
  | inl small ↦ rw small refl
  | inr large ↦
      rw large (omega (arith, length-append (digits rounds (n / 10)) ((48 + n % 10) ∷ [])))
]

power_positive : (k : ℕ) → 0 < 10 ^ k
power_positive zero = omega arith
power_positive (suc k) = omega (arith, power_positive k)

-- A number has at most `k` digits exactly if it is below the power of ten.
length-digits :
    (rounds k n : ℕ) → suc k < rounds → (length (digits rounds n) ≤ suc k) ↔ (n < 10 ^ suc k)
length-digits zero k n h = absurd (omega arith)
length-digits (suc zero) k n h = absurd (omega arith)
length-digits (suc (suc rounds)) zero n h =
    ground (arith, length-digits_step (suc rounds) n, length-digits_step rounds (n / 10))
length-digits (suc (suc rounds)) (suc k) n h =
    let back = length-digits (suc rounds) k (n / 10) (omega arith) in
    ground (arith, length-digits_step (suc rounds) n, power_positive k, back.0, back.1)

pub length-decimal : (k n : ℕ) → suc k < 20 → (length (decimal n) ≤ suc k) ↔ (n < 10 ^ suc k)
unfolding decimal
length-decimal k n h = length-digits 20 k n h

-- A sign takes the place of one digit.
pub length-signed :
    (z : ℤ) → ltb (length (signed z)) 10 ≡ ltb (pos_part z + 10 * neg_part z) (10 ^ 9)
unfolding signed
length-signed (pos n) =
    let nine = length-decimal 8 n (omega arith) in ground (arith, nine.0, nine.1)
length-signed (negsuc n) =
    let eight = length-decimal 7 (suc n) (omega arith) in ground (arith, eight.0, eight.1)
