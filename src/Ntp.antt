-- ===== src/Ntp.antt =====
-- src/NTPClient.cpp and src/NTPClient.h: the clock's offset from a time server. The network, the clock
-- of the system and `double` are parameters; a thread's round takes what the system answers.
pub mod Packet
pub mod Client
pub mod Steps
pub mod Validity
pub mod Failures
pub mod Tests
use camannex.Base.{
  ℕ, ◌+◌, ◌*◌, ◌/◌, ◌%◌, ◌^◌, List, [], ◌∷◌, ◌++◌, Bytes, Bool, true, false, not, ◌&&◌, ◌||◌,
  Option, none, some, ltb, leb, ◌==◌, if◌then◌else◌, ◌>>=◌, length, take, drop, get_or, replicate,
}
use camannex.Base.Int.{ℤ, pos, pos_part}
use camannex.Base.Real.{Real}
use camannex.Base.Text.{c_string}
use camannex.Transfer.Reply.{copy_to}

-- 2208988800 seconds
abbrev pub jan_1970 : ℕ
jan_1970 = 0x83AA7E80

abbrev pub ntp_pck_len : ℕ
ntp_pck_len = 48

-- struct timeval
pub record TimeVal : Type 0 where
  pub sec : ℕ
  pub usec : ℕ

-- ntp_time and ntp_packet. A member of 32 bits is the number of its bit pattern.
pub record NtpTime : Type 0 where
  pub coarse : ℕ
  pub fine : ℕ

pub record NtpPacket : Type 0 where
  pub leap_ver_mode : ℕ
  pub stratum : ℕ
  pub poll : ℕ
  pub precision : ℕ
  pub root_delay : ℕ
  pub root_dispersion : ℕ
  pub reference_identifier : Bytes
  pub reference_timestamp : NtpTime
  pub originate_timestamp : NtpTime
  pub receive_timestamp : NtpTime
  pub transmit_timestamp : NtpTime

-- A number of 32 bits in network order, and `ntohl(*(int*)&(data[i]))`.
unfoldable pub network_word : ℕ → Bytes
network_word n = n / 2 ^ 24 % 256 ∷ n / 2 ^ 16 % 256 ∷ n / 2 ^ 8 % 256 ∷ n % 256 ∷ []

unfoldable pub read_word : Bytes → ℕ → ℕ
read_word bytes i =
    get_or bytes i 0 * 2 ^ 24
    + get_or bytes (i + 1) 0 * 2 ^ 16
    + get_or bytes (i + 2) 0 * 2 ^ 8
    + get_or bytes (i + 3) 0

-- `tmp_wrd = htonl(n); memcpy(data + i, &tmp_wrd, sizeof(tmp_wrd))`: a `long` of eight bytes, low bytes
-- first, so four zeros follow the word.
unfoldable pub put_long : ℕ → ℕ → Bytes → Bytes
unfolding network_word copy_to
put_long i n = copy_to i 8 (network_word n ++ 0 ∷ 0 ∷ 0 ∷ 0 ∷ [])

-- strcpy to `reference_identifier`, which has four bytes and the 32 bytes of the time stamps behind it,
-- all written later: what the four bytes hold. `none` where it writes behind the packet.
unfoldable pub copy_identifier : Bytes → Bytes → Option Bytes
unfolding c_string
copy_identifier source old = c_string source >>= λ s.
    if ltb (length s) 36 then some (take 4 (s ++ 0 ∷ drop (length s + 1) old)) else none

unfoldable pub read_time : Bytes → ℕ → NtpTime
unfolding read_word
read_time bytes i = record { coarse = read_word bytes i; fine = read_word bytes (i + 4) }

-- The assignments of get_time to `ret_time`. `old` is the identifier before.
unfoldable pub read_packet : Bytes → Bytes → Option NtpPacket
unfolding read_word read_time copy_identifier
read_packet bytes old = copy_identifier (drop 12 bytes) old >>= λ id. some (record {
  leap_ver_mode = get_or bytes 0 0;
  stratum = get_or bytes 1 0;
  poll = get_or bytes 2 0;
  precision = get_or bytes 3 0;
  root_delay = read_word bytes 4;
  root_dispersion = read_word bytes 8;
  reference_identifier = id;
  reference_timestamp = read_time bytes 16;
  originate_timestamp = read_time bytes 24;
  receive_timestamp = read_time bytes 32;
  transmit_timestamp = read_time bytes 40;
})

module _ (real : Real) where
  open real use {R, add, sub, mul, div, neg, of_int, trunc, literal, leb as le}

  abbrev pub uint_max : R
  uint_max = literal 4294967295 0

  -- `(unsigned int) ((double) tv.tv_usec * UINTMAX * 1E-6)`
  unfoldable pub fraction : ℕ → ℕ
  fraction usec = pos_part (trunc (mul (mul (of_int (pos usec)) uint_max) (literal 1 6))) % 2 ^ 32

  -- NTPClient::construct_packet at the time `now`. The first word is
  -- `LI << 30 | 4 << 27 | MODE << 24 | STRATUM << 16 | POLL << 8 | PREC & 0xff`.
  unfoldable pub construct_packet : TimeVal → Bytes → Bytes
  unfolding put_long fraction
  construct_packet now bytes =
      let d0 = copy_to 0 ntp_pck_len (replicate ntp_pck_len 0) bytes in
      let d1 = put_long 0 0x230004FA d0 in
      let d2 = put_long 4 (2 ^ 16) d1 in
      let d3 = put_long 8 (2 ^ 16) d2 in
      let d4 = put_long 40 ((jan_1970 + now.sec) % 2 ^ 32) d3 in put_long 44 (fraction now.usec) d4
