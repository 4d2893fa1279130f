-- ===== src/Frame/Cooler/Check.antt =====
-- The size and the check code of the frame that CoolerCtl::encode_data writes.
use camannex.Base.{
  ℕ, ◌+◌, ◌-◌, ◌*◌, ◌/◌, ◌%◌, ◌≤◌, ◌≡◌, ◌↔◌, [], ◌∷◌, ◌++◌, Bytes, u8, arith, length, get_or, take,
  length-append,
}
use camannex.Frame.Hex.{
  hex_digit, decode_uint8, decode_hex, checksum, lrc, lrc-lt, checksum-append, checksum-lt,
}
use camannex.Frame.Cooler.{encode_data}
use camannex.Frame.Cooler.Layout.{
  encode_data_lem, head_part, check_of, checked_part, length-encode_value, take-append_self,
}
use camannex.Search.Framing.{get_or-append}

abbrev sealed : ℕ → ℕ → Bytes → Bytes
sealed idd idf value =
    let check = check_of idd idf value in
    head_part idd idf value
    ++ hex_digit (check / 16) ∷ hex_digit (check % 16) ∷ 0x0d ∷ 0x0a ∷ 0 ∷ []

length-sealed :
    (idd idf : ℕ) (value : Bytes) → length (sealed idd idf value) ≡ 10 + 2 * length value
length-sealed idd idf value = omega (
  arith,
  length-append (head_part idd idf value) (0 ∷ 0 ∷ 0x0d ∷ 0x0a ∷ 0 ∷ []),
  length-append (head_part idd idf value) (
      hex_digit (check_of idd idf value / 16)
      ∷ hex_digit (check_of idd idf value % 16)
      ∷ 0x0d
      ∷ 0x0a
      ∷ 0
      ∷ []),
  length-encode_value value,
)

-- encode_data writes the frame and a zero behind it, 10 bytes and two for each character of the
-- text. So it stays within the 30 bytes of `Directive::msg` exactly when the text has at most ten
-- characters.
pub encode_data-fits :
    (idd idf : ℕ) (value : Bytes)
    → let (n, out) = encode_data idd idf value in
      (length out ≡ n + 1)
      × (length out ≡ 10 + 2 * length value)
      × ((length out ≤ 30) ↔ (length value ≤ 10))
encode_data-fits idd idf value = rw (encode_data_lem idd idf value) (
    let size = length-sealed idd idf value in
    (omega (arith, size), size, ((λ h. omega (arith, size)), (λ h. omega (arith, size)))))

-- The check code of a frame makes its bytes sum to zero modulo 256, with the code itself taken as
-- the byte that its two digits stand for: lead, fields and text, carriage return and line feed.
pub encode_data-checks :
    (idd idf : ℕ) (value : Bytes)
    → let (n, out) = encode_data idd idf value in
      u8 (
        checksum (take (n - 4) out)
        + decode_uint8 (get_or out (n - 4) 0) (get_or out (n - 3) 0)
        + 0x0d
        + 0x0a)
      ≡ 0
unfolding lrc checksum
encode_data-checks idd idf value =
    let front = head_part idd idf value in
    let check : ℕ = lrc (checked_part idd idf value) in
    let tail : Bytes = hex_digit (check / 16) ∷ hex_digit (check % 16) ∷ 0x0d ∷ 0x0a ∷ 0 ∷ [] in
    let n = length-encode_value value in
    rw
      (
        encode_data_lem idd idf value,
        take-append_self (9 + 2 * length value - 4) front tail (omega (arith, n)),
        get_or-append front tail (9 + 2 * length value - 4) 0 (omega (arith, n)),
        get_or-append front tail (9 + 2 * length value - 3) 1 (omega (arith, n)),
        decode_hex check (lrc-lt (checked_part idd idf value)),
      )
      (omega (arith, checksum-append front (0 ∷ 0 ∷ 0x0d ∷ 0x0a ∷ []), checksum-lt front))
