-- ===== src/Frame/Hex.antt =====
-- Hexadecimal digits: `(t >= 0x0A) ? (t + base_1) : (t + base_0)` of encode_data, its reading by
-- ControllerBase::decode_uint8, and LRC and Checksum of src/AMath.h at `T = char`.
use camannex.Base.{
  ℕ, ◌+◌, ◌-◌, ◌*◌, ◌/◌, ◌%◌, ◌<◌, ◌≡◌, ◌&&◌, [], ◌∷◌, ◌++◌, Bytes, u8, arith, ltb, leb,
  if◌then◌else◌, zero, suc, get_or,
}

-- One digit, stored in a `char`.
unfoldable pub hex_digit : ℕ → ℕ
hex_digit t = if leb 0x0a t then u8 (t + 0x37) else u8 (t + 0x30)

-- `t` of decode_uint8 after its tests; a byte that is no digit is kept as it is.
unfoldable pub digit_value : ℕ → ℕ
digit_value b =
    if leb b'0' b && leb b b'9'
    then u8 (b + 256 - 0x30)
    else if leb b'A' b && leb b b'F'
    then u8 (b + 256 - 0x37)
    else b

-- ControllerBase::decode_uint8
unfoldable pub decode_uint8 : ℕ → ℕ → ℕ
unfolding digit_value
decode_uint8 b1 b2 = u8 (u8 (digit_value b1 * 16) + digit_value b2)

-- `char` is signed: a byte from 128 on is the number 256 less, and `/` and `%` round towards zero.
-- The result is kept in a `uint8_t`.
unfoldable pub char_div16 : ℕ → ℕ
char_div16 c = if ltb c 128 then c / 16 else u8 (256 - (256 - c) / 16)

unfoldable pub char_mod16 : ℕ → ℕ
char_mod16 c = if ltb c 128 then c % 16 else u8 (256 - (256 - c) % 16)

-- The loop of both decode_data: `for (i = first; i <= last; i += 2) strval += decode_uint8(ptr[i], ptr[i + 1])`.
unfoldable pub decode_loop : ℕ → ℕ → ℕ → Bytes → Bytes
decode_loop zero i last ptr = []
decode_loop (suc fuel) i last ptr =
    let more =
      decode_uint8 (get_or ptr i 0) (get_or ptr (i + 1) 0) ∷ decode_loop fuel (i + 2) last ptr in
    if leb i last then more else []

-- The sum that Checksum returns.
unfoldable pub checksum : Bytes → ℕ
checksum [] = 0
checksum (b ∷ bs) = u8 (b + checksum bs)

-- LRC: `~lrc + 1`, the two's complement of the sum.
unfoldable pub lrc : Bytes → ℕ
lrc bs = u8 (256 - checksum bs)

pub hex_digit-lt : (t : ℕ) → hex_digit t < 256
unfolding hex_digit
hex_digit-lt t = ground arith

pub decode_hex : (n : ℕ) → n < 256 → decode_uint8 (hex_digit (n / 16)) (hex_digit (n % 16)) ≡ n
unfolding decode_uint8 hex_digit
decode_hex n h = ground arith

pub checksum-lt : (bs : Bytes) → checksum bs < 256
unfolding checksum
checksum-lt [] = omega arith
checksum-lt (b ∷ bs) = omega arith

pub checksum-append : (xs ys : Bytes) → checksum (xs ++ ys) ≡ u8 (checksum xs + checksum ys)
unfolding checksum
checksum-append [] ys = omega (arith, checksum-lt ys)
checksum-append (x ∷ xs) ys = omega (arith, checksum-append xs ys)

pub lrc-lt : (bs : Bytes) → lrc bs < 256
unfolding lrc
lrc-lt bs = omega arith
