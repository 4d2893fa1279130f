-- ===== src/Search.antt =====
-- The search for a flag in received bytes that SerialComm::Lookup (src/SerialComm.cpp) and
-- TCPClient::Lookup (src/tcpasio.cpp) share, and the copying loop of both Read functions.
pub mod First
pub mod Copy
pub mod Framing
use camannex.Base.{
  ℕ, zero, suc, ◌+◌, ◌-◌, not, ◌&&◌, List, [], ◌∷◌, Bytes, Bool, ◌==◌, leb, if◌then◌else◌, length,
  get_or,
}
use camannex.Base.Int.{ℤ, pos, sub_ℕ, minus_one, leb_ℤ, eqb_ℤ}

-- `for (i = 0, j = pos; i < len && flag[i] == buf[j]; ++i, ++j)`, in the rounds left; the result is
-- the last `i`.
unfoldable pub match_flag : Bytes → Bytes → ℕ → ℕ → ℕ → ℕ
match_flag flag buf zero i j = i
match_flag flag buf (suc rounds) i j =
    let more = match_flag flag buf rounds (i + 1) (j + 1) in
    if get_or flag i 0 == get_or buf j 0 then more else i

-- `for (pos = from, i = -1; i != len && pos <= n; ++pos)`, with the variables at its end.
unfoldable pub scan : Bytes → Bytes → ℕ → ℕ → ℤ → ℕ → ℤ × ℕ
scan flag buf len zero i p = (i, p)
scan flag buf len (suc fuel) i p =
    let more = scan flag buf len fuel (pos (match_flag flag buf len 0 p)) (p + 1) in
    if not (eqb_ℤ i (pos len)) && leb_ℤ (pos p) (sub_ℕ (length buf) len) then more else (i, p)

-- The search and its result, for a positive length and a start that is not negative. Each round
-- moves on by one, so the rounds are no more than the bytes.
unfoldable pub find_flag : Bytes → Bytes → ℕ → ℕ → ℤ
unfolding match_flag scan
find_flag flag buf len from =
    let (i, p) = scan flag buf len (length buf + 1) minus_one from in
    if eqb_ℤ i (pos len) then pos (p - 1) else minus_one

-- `for (; j < n; ++i, ++j) buff[i] = buf[j]`, in the rounds left.
unfoldable pub copy : Bytes → ℕ → ℕ → Bytes
copy buf zero j = []
copy buf (suc rounds) j = get_or buf j 0 ∷ copy buf rounds (j + 1)
