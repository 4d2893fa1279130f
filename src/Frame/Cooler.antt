-- ===== src/Frame/Cooler.antt =====
-- CoolerCtl::encode_data, and the bytes that CoolerCtl::decode_data reads in a received frame.
pub mod Layout
pub mod RoundTrip
pub mod Check
pub mod OnLine
use camannex.Base.{
  ℕ, zero, suc, ◌+◌, ◌-◌, ◌*◌, ◌/◌, ◌%◌, ◌<◌, ◌≤◌, ◌≡◌, refl, ap, Bool, List, [], ◌∷◌, ◌++◌, Bytes,
  u8, arith, ltb, leb, if◌then◌else◌, not, ◌==◌, length, get_or, set, take,
}
use camannex.Frame.Hex.{hex_digit, decode_uint8, decode_loop, char_div16, char_mod16, lrc}

-- The loop over the `len` characters of `value`.
pub encode_value : Bytes → Bytes
encode_value [] = []
encode_value (c ∷ cs) = hex_digit (char_div16 c) ∷ hex_digit (char_mod16 c) ∷ encode_value cs

-- The buffer before the check code is written: lead, device, function, data, two zeros for the
-- check code, carriage return, line feed and the terminating zero.
draft : ℕ → ℕ → Bytes → Bytes
unfolding encode_value
draft idd idf value =
    b':'
    ∷ hex_digit (idd / 16)
    ∷ hex_digit (idd % 16)
    ∷ hex_digit (idf / 16)
    ∷ hex_digit (idf % 16)
    ∷ (encode_value value ++ 0 ∷ 0 ∷ 0x0d ∷ 0x0a ∷ 0 ∷ [])

-- The result is the length `i` and the bytes that are written to `output`.
unfoldable pub encode_data : ℕ → ℕ → Bytes → ℕ × Bytes
unfolding draft
encode_data idd idf value =
    let output = draft idd idf value in
    let i = length output - 1 in
    let check = lrc (take i output) in
    (i, set (set output (i - 4) (hex_digit (check / 16))) (i - 3) (hex_digit (check % 16)))

-- What decode_data reads before it looks for the device. A frame of 9 bytes holds no text: there
-- decode_data leaves `value` without a value.
pub data Reply : Type 0 where
  too_short : Reply
  odd_text : Reply
  no_text : (idd idf : ℕ) → Reply
  text : (idd idf : ℕ) → Bytes → Reply

unfoldable pub read_frame : ℕ → Bytes → Reply
read_frame len ptr =
    let idd = decode_uint8 (get_or ptr 1 0) (get_or ptr 2 0) in
    let idf = decode_uint8 (get_or ptr 3 0) (get_or ptr 4 0) in
    if ltb len 9
    then too_short
    else if not ((len - 9) % 2 == 0)
    then odd_text
    else if ltb 9 len
    then text idd idf (decode_loop len 5 (len - 5) ptr)
    else no_text idd idf
