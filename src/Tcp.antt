-- ===== src/Tcp.antt =====
-- TCPClient of src/tcpasio.cpp and src/tcpasio.h: the network connection, with circular buffers or
-- without. boost::asio's socket is the environment: results of the system are arguments, and an
-- asynchronous operation that was started is recorded until its handler is called.
pub mod Run
pub mod Receive
pub mod Server
pub mod Tests
use camannex.Base.{
  ℕ, ◌+◌, ◌-◌, ◌*◌, List, [], ◌∷◌, ◌++◌, Bytes, Bool, true, false, not, ◌&&◌, ◌||◌, Option, none,
  some, if◌then◌else◌, ltb, ◌==◌, min, length, take, drop, rest_of, get_or,
}
use camannex.Base.Int.{ℤ, pos, minus_one, ltb_ℤ, leb_ℤ, pos_part}
use camannex.Buffer.{CircularBuffer}
use camannex.Buffer.Push.{push_all}
use camannex.Search.{find_flag, copy}
use camannex.Serial.{ErrorCode, is_success, value}

abbrev pub tcp_pack_size : ℕ
tcp_pack_size = 1500

module _ (cb : CircularBuffer) where
  open cb use {Buf, items, capacity, erase_begin, set_capacity, clear}

  -- The members of TCPClient. `connects`, `reads` and `writes` are the asynchronous operations that
  -- wait; `direct` has the bytes that the socket took without a buffer.
  pub record Client : Type 0 where
    pub is_open : Bool
    pub bytercv : ℕ
    pub usebuf : Bool
    pub cbconn : Bool
    pub cbrcv : Bool
    pub cbsnd : Bool
    pub bufrcv : Bytes
    pub crcrcv : Buf
    pub crcsnd : Buf
    pub connects : ℕ
    pub reads : ℕ
    pub writes : List Bytes
    pub direct : Bytes

  -- The constructor, on two new buffers.
  unfoldable pub init : Buf → Buf → Client
  init rcv snd = record {
    is_open = false;
    bytercv = 0;
    usebuf = false;
    cbconn = false;
    cbrcv = false;
    cbsnd = false;
    bufrcv = [];
    crcrcv = rcv;
    crcsnd = snd;
    connects = 0;
    reads = 0;
    writes = [];
    direct = [];
  }

  -- TCPClient::start_read
  unfoldable pub start_read : Client → Client
  start_read s = if s.is_open then record s { reads = s.reads + 1 } else s

  -- TCPClient::start_write
  unfoldable pub start_write : Client → Client
  start_write s =
      let n = length (items s.crcsnd) in
      if not (n == 0) then record s { writes = s.writes ++ items s.crcsnd ∷ [] } else s

  -- TCPClient::Connect, with the result `ec` of connecting and whether the socket is open then.
  unfoldable pub connect : ErrorCode → Bool → Client → Client × Bool
  connect ec opened s = (record s { is_open = opened }, is_success ec && opened)

  -- TCPClient::AsyncConnect. async_connect opens a socket that is not open, where the system allows it.
  unfoldable pub async_connect : Bool → Client → Client
  async_connect opens s = record s { connects = s.connects + 1; is_open = opens || s.is_open }

  -- TCPClient::Close
  unfoldable pub close : Client → Client
  close s = record s { is_open = false }

  -- TCPClient::UseBuffer
  unfoldable pub use_buffer : Bool → Client → Client
  use_buffer true s = if s.usebuf then s else record s {
    usebuf = true;
    crcrcv = set_capacity s.crcrcv (tcp_pack_size * 10);
    crcsnd = set_capacity s.crcsnd (tcp_pack_size * 10);
  }
  use_buffer false s =
      if s.usebuf
      then record s { usebuf = false; crcrcv = clear s.crcrcv; crcsnd = clear s.crcsnd }
      else s

  -- TCPClient::RegisterConnect, RegisterRead and RegisterWrite: a slot that was connected is replaced.
  unfoldable pub register_connect : Client → Client
  register_connect s = record s { cbconn = true }

  unfoldable pub register_read : Client → Client
  register_read s = record s { cbrcv = true }

  unfoldable pub register_write : Client → Client
  register_write s = record s { cbsnd = true }

  -- The bytes that were received and not yet read.
  unfoldable pub received : Client → Bytes
  received s = if s.usebuf then items s.crcrcv else take s.bytercv s.bufrcv

  -- TCPClient::Lookup of the first byte: the number of bytes, and the byte that it writes.
  unfoldable pub lookup_first : Bool → Client → ℤ × Option ℕ
  unfolding received
  lookup_first first s =
      let n = length (received s) in
      if not (first && not (n == 0))
      then (minus_one, none)
      else (pos n, some (get_or (received s) 0 0))

  -- TCPClient::Lookup of a flag
  unfoldable pub lookup : Option Bytes → ℤ → ℤ → Client → ℤ
  unfolding received
  lookup none len from s = minus_one
  lookup (some flag) len from s =
      if leb_ℤ len (pos 0) || ltb_ℤ from (pos 0)
      then minus_one
      else find_flag flag (received s) (pos_part len) (pos_part from)

  -- TCPClient::Read: what is written to `buff`, its length being the result. A sum of start and length
  -- above the largest `int` is taken to wrap around, to a negative one.
  unfoldable pub read : ℤ → ℤ → Client → Bytes × Client
  read len from s =
      let n0 = pos_part from + pos_part len in
      let n = min (length (items s.crcrcv)) n0 in
      let wraps = ltb 2147483647 n0 in
      let i = if wraps then 0 else n - pos_part from in
      let taken = if not (i == 0) then record s { crcrcv = erase_begin s.crcrcv i } else s in
      let m = if not wraps && ltb s.bytercv n0 then s.bytercv - pos_part from else pos_part len in
      if leb_ℤ len (pos 0) || ltb_ℤ from (pos 0)
      then ([], s)
      else if s.usebuf
      then (copy (items s.crcrcv) i (pos_part from), taken)
      else (take m (drop (pos_part from) s.bufrcv), s)

  -- TCPClient::Write: the number of bytes that it takes. Without a buffer the socket takes `sent`.
  unfoldable pub write : Option Bytes → ℤ → ℕ → Client → ℕ × Client
  unfolding start_write
  write none len sent s = (0, s)
  write (some buff) len sent s =
      let n0 = length (items s.crcsnd) in
      let n = min (capacity s.crcsnd - n0) (pos_part len) in
      let s' = record s { crcsnd = push_all cb s.crcsnd (take n buff) } in
      if leb_ℤ len (pos 0)
      then (0, s)
      else if s.usebuf
      then (n, if n0 == 0 && not (n == 0) then start_write s' else s')
      else (sent, record s { direct = s.direct ++ take sent buff })

  -- TCPClient::handle_connect. `on_connect` is the slot.
  unfoldable pub handle_connect : (ℤ → Client → Client) → ErrorCode → Client → Client
  unfolding start_read
  handle_connect on_connect ec s =
      let s0 = record s { connects = s.connects - 1 } in
      let s1 = if s0.cbconn then on_connect (value ec) s0 else s0 in
      if is_success ec then start_read s1 else s1

  -- TCPClient::handle_read, with the `n` bytes that arrived in `bufrcv_`.
  unfoldable pub handle_read : (ℤ → Client → Client) → ErrorCode → Bytes → Client → Client
  unfolding start_read
  handle_read on_read ec chunk s =
      let s0 = record s { reads = s.reads - 1; bufrcv = chunk ++ drop (length chunk) s.bufrcv } in
      let s1 =
        if is_success ec && s0.usebuf
        then record s0 { crcrcv = push_all cb s0.crcrcv chunk }
        else s0 in
      let s2 = if s1.cbrcv then on_read (value ec) s1 else s1 in
      if is_success ec then start_read s2 else s2

  -- TCPClient::handle_write. The slot is told the number of bytes.
  unfoldable pub handle_write : (ℕ → Client → Client) → ErrorCode → ℕ → Client → Client
  unfolding start_write
  handle_write on_write ec n s =
      let s0 = record s { writes = rest_of s.writes } in
      let s1 = record s0 { crcsnd = erase_begin s0.crcsnd n } in
      if is_success ec then start_write (if s1.cbsnd then on_write n s1 else s1) else s0
