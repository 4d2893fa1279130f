-- ===== src/Frame/Tests.antt =====
-- Frames of a reading of 12.5, and of a query.
use camannex.Base.{◌+◌, ◌-◌, ◌≡◌, [], ◌++◌, codes, arith, u8, take, drop, get_or, length}
use camannex.Frame
use camannex.Frame.Hex.{decode_uint8, checksum}
use camannex.Frame.Cooler.{text}
use camannex.Frame.Cooler.Check.{encode_data-checks}
use camannex.Frame.Vacuum.Layout.{encode_data-fields}
use camannex.Frame.Cooler.RoundTrip.{read_frame-encode_data}

read_frame-encode_data_example :
    let (n, out) = Frame.Cooler.encode_data 1 0x21 (codes "12.5") in
    Frame.Cooler.read_frame n (out ++ codes "xyz") ≡ text 1 0x21 (codes "12.5")
read_frame-encode_data_example =
    read_frame-encode_data 1 0x21 (codes "12.5") (codes "xyz") (omega arith) (omega arith)
      (omega arith, (omega arith, (omega arith, (omega arith, tt))))

encode_data-checks_example :
    let (n, out) = Frame.Cooler.encode_data 1 0x21 (codes "12.5") in
    u8 (
      checksum (take (n - 4) out)
      + decode_uint8 (get_or out (n - 4) 0) (get_or out (n - 3) 0)
      + 0x0d
      + 0x0a)
    ≡ 0
encode_data-checks_example = encode_data-checks 1 0x21 (codes "12.5")

encode_data-fields_example :
    let (n, out) = Frame.Vacuum.encode_data 3 0x02 [] in
    (n ≡ 11)
    × (length out ≡ 12)
    × (decode_uint8 (get_or out 2 0) (get_or out 3 0) ≡ 3)
    × (decode_uint8 (get_or out 5 0) (get_or out 6 0) ≡ 0x02)
    × (decode_uint8 (get_or out 8 0) (get_or out 9 0) ≡ checksum (take 7 (drop 1 out)))
encode_data-fields_example = encode_data-fields 3 0x02 [] (omega arith) (omega arith)
