-- ===== src/Frame/Vacuum/Layout.antt =====
-- The layout of the frame that VacuumCtl::encode_data writes.
use camannex.Base.{ℕ, ◌<◌, ◌≡◌, refl, Bytes, length, get_or, take, drop}
use camannex.Frame.Hex.{decode_uint8, checksum, decode_hex, checksum-lt}
use camannex.Frame.Vacuum.{encode_data}

-- For every device and function that is a byte, the frame of a vacuum gauge has eleven bytes and a zero
-- behind them; its fields read back as the device and the function, and its check code as the sum of the
-- seven bytes between the lead and the check code.
pub encode_data-fields :
    (idd idf : ℕ) (value : Bytes)
    → idd < 256
    → idf < 256
    → let (n, out) = encode_data idd idf value in
      (n ≡ 11)
      × (length out ≡ 12)
      × (decode_uint8 (get_or out 2 0) (get_or out 3 0) ≡ idd)
      × (decode_uint8 (get_or out 5 0) (get_or out 6 0) ≡ idf)
      × (decode_uint8 (get_or out 8 0) (get_or out 9 0) ≡ checksum (take 7 (drop 1 out)))
unfolding encode_data
encode_data-fields idd idf value hd hf =
    (refl, refl, decode_hex idd hd, decode_hex idf hf, decode_hex _ (checksum-lt _))
