-- ===== src/Frame/Cooler/RoundTrip.antt =====
-- What decode_data reads in a frame that encode_data wrote.
use camannex.Base.{
  ℕ, zero, suc, ◌+◌, ◌-◌, ◌*◌, ◌/◌, ◌%◌, ◌<◌, ◌≤◌, ◌≡◌, refl, [], ◌∷◌, ◌++◌, append_assoc, Bytes,
  All, arith, length, length-append,
}
use camannex.Search.Framing.{get_or-append}
use camannex.Frame.Hex.{hex_digit, char_div16, char_mod16, decode_uint8, decode_loop, decode_hex}
use camannex.Frame.Cooler.{encode_value, encode_data, Reply, text, no_text, read_frame}
use camannex.Frame.Cooler.Layout.{encode_data_lem, head_part}

abbrev pub IsAscii : Bytes → Type 0
IsAscii = All (λ c. c < 128)

decode_char :
    (c : ℕ) → c < 128 → decode_uint8 (hex_digit (char_div16 c)) (hex_digit (char_mod16 c)) ≡ c
unfolding char_div16 char_mod16
decode_char c h = ground (arith, decode_hex c)

-- The loop stops behind the text that was encoded, and has read it.
decode_loop-encode_value :
    (value pre rest : Bytes) (fuel i last : ℕ)
    → IsAscii value
    → i ≡ length pre
    → last + 1 ≡ i + 2 * length value
    → length value ≤ fuel
    → decode_loop fuel i last (pre ++ (encode_value value ++ rest)) ≡ value
unfolding decode_loop encode_value
decode_loop-encode_value [] pre rest zero i last ha hi hl hf = refl
decode_loop-encode_value [] pre rest (suc fuel) i last ha hi hl hf = ground arith
decode_loop-encode_value (c ∷ cs) pre rest zero i last ha hi hl hf = absurd (omega arith)
decode_loop-encode_value (c ∷ cs) pre rest (suc fuel) i last (hc, hcs) hi hl hf =
    let a : ℕ = hex_digit (char_div16 c) in
    let b : ℕ = hex_digit (char_mod16 c) in
    let more : Bytes = encode_value cs ++ rest in
    let ih =
      decode_loop-encode_value cs (pre ++ (a ∷ b ∷ [])) rest fuel (i + 2) last hcs
        (omega (arith, length-append pre (a ∷ b ∷ []))) (omega arith) (omega arith) in
    ground (
      arith,
      ih,
      append_assoc pre (a ∷ b ∷ []) more,
      get_or-append pre (a ∷ b ∷ more) i 0,
      get_or-append pre (a ∷ b ∷ more) (i + 1) 1,
      decode_char c hc,
    )

-- What the fields and the text of a frame should be read as.
abbrev pub reply_of : ℕ → ℕ → Bytes → Reply
reply_of idd idf [] = no_text idd idf
reply_of idd idf (c ∷ cs) = text idd idf (c ∷ cs)

-- The loop on a whole frame, behind its first five bytes.
decode_loop-frame :
    (a b c d : ℕ) (value rest : Bytes)
    → IsAscii value
    → let n = 9 + 2 * length value in
      decode_loop n 5 (n - 5) (b':' ∷ a ∷ b ∷ c ∷ d ∷ (encode_value value ++ rest)) ≡ value
decode_loop-frame a b c d value rest h =
    decode_loop-encode_value value (b':' ∷ a ∷ b ∷ c ∷ d ∷ []) rest (9 + 2 * length value) 5
      (9 + 2 * length value - 5) h refl (omega arith) (omega arith)

pub read_frame-layout :
    (idd idf : ℕ) (value rest : Bytes)
    → idd < 256
    → idf < 256
    → IsAscii value
    → read_frame (9 + 2 * length value) (head_part idd idf value ++ rest) ≡ reply_of idd idf value
unfolding read_frame
read_frame-layout idd idf [] rest hd hf h = ground (arith, decode_hex idd hd, decode_hex idf hf)
read_frame-layout idd idf (c ∷ cs) rest hd hf h = ground (
  arith,
  decode_hex idd hd,
  decode_hex idf hf,
  decode_loop-frame (hex_digit (idd / 16)) (hex_digit (idd % 16)) (hex_digit (idf / 16))
      (hex_digit (idf % 16)) (c ∷ cs) rest h,
)

-- A frame that encode_data writes, whatever stands behind it in the buffer, reads back as the
-- device, the function and the text, for an ASCII text of any length.
pub read_frame-encode_data :
    (idd idf : ℕ) (value rest : Bytes)
    → idd < 256
    → idf < 256
    → IsAscii value
    → let (n, out) = encode_data idd idf value in
      read_frame n (out ++ rest) ≡ reply_of idd idf value
read_frame-encode_data idd idf value rest hd hf h =
    rw (encode_data_lem idd idf value, append_assoc (head_part idd idf value))
      (read_frame-layout idd idf value _ hd hf h)
