-- ===== src/Frame/Vacuum.antt =====
-- VacuumCtl::encode_data, and the bytes that VacuumCtl::decode_data reads in a received frame.
pub mod Layout
use camannex.Base.{
  ℕ, ◌+◌, ◌-◌, ◌/◌, ◌%◌, List, [], ◌∷◌, Bytes, ltb, if◌then◌else◌, length, get_or, set, take, drop,
}
use camannex.Frame.Hex.{hex_digit, decode_uint8, decode_loop, checksum}

-- The buffer before the check code is written. `value` and its length are not read.
draft : ℕ → ℕ → Bytes
draft idd idf =
    b'~'
    ∷ b' '
    ∷ hex_digit (idd / 16)
    ∷ hex_digit (idd % 16)
    ∷ b' '
    ∷ hex_digit (idf / 16)
    ∷ hex_digit (idf % 16)
    ∷ b' '
    ∷ 0
    ∷ 0
    ∷ 0x0d
    ∷ 0
    ∷ []

-- `lrc` is the sum of what stands between the lead and the check code.
unfoldable pub encode_data : ℕ → ℕ → Bytes → ℕ × Bytes
unfolding draft
encode_data idd idf value =
    let output = draft idd idf in
    let i = length output - 1 in
    let check = checksum (take 7 (drop 1 output)) in
    (i, set (set output (i - 3) (hex_digit (check / 16))) (i - 2) (hex_digit (check % 16)))

pub data Reply : Type 0 where
  too_short : Reply
  text : (idd : ℕ) → Bytes → Reply

unfoldable pub read_frame : ℕ → Bytes → Reply
read_frame len ptr =
    if ltb len 12
    then too_short
    else text (decode_uint8 (get_or ptr 0 0) (get_or ptr 1 0)) (decode_loop len 6 (len - 5) ptr)
