-- ===== src/Frame/Cooler/OnLine.antt =====
-- The bytes of a frame on the line: no carriage return stands in it before its end.
use camannex.Base.{
  ℕ, ◌+◌, ◌*◌, ◌/◌, ◌%◌, ◌<◌, ◌≡◌, ◌≢◌, sym, [], ◌∷◌, ◌++◌, append_assoc, Bytes, arith, length,
  take, length-append,
}
use camannex.Search.Framing.{Lacks}
use camannex.Frame.Hex.{hex_digit, char_div16, char_mod16, lrc-lt}
use camannex.Frame.Cooler.{encode_value, encode_data}
use camannex.Frame.Cooler.Layout.{
  encode_data_lem, head_part, check_of, checked_part, length-encode_value, take-append_self,
}
use camannex.Frame.Cooler.RoundTrip.{IsAscii}

-- The bytes of a frame, without the zero that ends the C string.
abbrev pub frame : ℕ → ℕ → Bytes → Bytes
frame idd idf value = let (n, out) = encode_data idd idf value in take n out

-- The frame before its carriage return.
abbrev pub body : ℕ → ℕ → Bytes → Bytes
body idd idf value =
    let check = check_of idd idf value in
    head_part idd idf value ++ hex_digit (check / 16) ∷ hex_digit (check % 16) ∷ []

pub length-body : (idd idf : ℕ) (value : Bytes) → length (body idd idf value) ≡ 7 + 2 * length value
length-body idd idf value =
    let check = check_of idd idf value in
    omega (
      arith,
      length-append (head_part idd idf value)
          (hex_digit (check / 16) ∷ hex_digit (check % 16) ∷ []),
      length-encode_value value,
    )

pub frame-body :
    (idd idf : ℕ) (value : Bytes) → frame idd idf value ≡ body idd idf value ++ 0x0d ∷ 0x0a ∷ []
frame-body idd idf value =
    let check : ℕ = check_of idd idf value in
    let digits : Bytes = hex_digit (check / 16) ∷ hex_digit (check % 16) ∷ [] in
    rw
      (
        encode_data_lem idd idf value,
        sym (append_assoc (head_part idd idf value) digits (0x0d ∷ 0x0a ∷ 0 ∷ [])),
      )
      (rw (sym (append_assoc (head_part idd idf value ++ digits) (0x0d ∷ 0x0a ∷ []) (0 ∷ []))) (
        take-append_self (9 + 2 * length value)
          ((head_part idd idf value ++ digits) ++ 0x0d ∷ 0x0a ∷ []) (0 ∷ [])
          (omega (
            arith,
            length-append (head_part idd idf value ++ digits) (0x0d ∷ 0x0a ∷ []),
            length-append (head_part idd idf value) digits,
            length-encode_value value,
          ))))

hex_digit-ne_cr : (t : ℕ) → t < 16 → hex_digit t ≢ 0x0d
unfolding hex_digit
hex_digit-ne_cr t h = ground arith

Lacks-append : (b : ℕ) (xs ys : Bytes) → Lacks b xs → Lacks b ys → Lacks b (xs ++ ys)
Lacks-append b [] ys l m = m
Lacks-append b (x ∷ xs) ys (l, ls) m = (l, Lacks-append b xs ys ls m)

encode_value-Lacks : (value : Bytes) → IsAscii value → Lacks 0x0d (encode_value value)
unfolding encode_value char_div16 char_mod16
encode_value-Lacks [] h = tt
encode_value-Lacks (c ∷ cs) (h, hs) = (
  hex_digit-ne_cr (char_div16 c) (ground arith),
  (hex_digit-ne_cr (char_mod16 c) (ground arith), encode_value-Lacks cs hs),
)

pub body-Lacks :
    (idd idf : ℕ) (value : Bytes)
    → idd < 256
    → idf < 256
    → IsAscii value
    → Lacks 0x0d (body idd idf value)
body-Lacks idd idf value hd hf h =
    let check : ℕ = check_of idd idf value in
    let small = lrc-lt (checked_part idd idf value) in
    (
      (λ e. absurd (omega arith)),
      (
        hex_digit-ne_cr (idd / 16) (omega arith),
        (
          hex_digit-ne_cr (idd % 16) (omega arith),
          (
            hex_digit-ne_cr (idf / 16) (omega arith),
            (
              hex_digit-ne_cr (idf % 16) (omega arith),
              Lacks-append 0x0d (encode_value value)
                  (hex_digit (check / 16) ∷ hex_digit (check % 16) ∷ [])
                  (encode_value-Lacks value h)
                  (
                    hex_digit-ne_cr (check / 16) (omega arith),
                    (hex_digit-ne_cr (check % 16) (omega arith), tt),
                  ),
            ),
          ),
        ),
      ),
    )
