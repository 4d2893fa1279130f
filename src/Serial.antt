-- ===== src/Serial.antt =====
-- src/SerialComm.cpp and src/SerialComm.h: the serial port with its two circular buffers.
-- boost::asio's port is the environment: `open_port` takes the result of opening the device, and an
-- asynchronous operation that was started is recorded until its handler is called.
pub mod Receive
pub mod Send
pub mod Stall
pub mod Race
pub mod Tests
use camannex.Base.{
  ℕ, ◌+◌, ◌-◌, ◌*◌, List, [], ◌∷◌, ◌++◌, Bytes, Bool, true, false, not, ◌&&◌, ◌||◌, Option, none,
  some, if◌then◌else◌, ltb, ◌==◌, min, length, take, rest_of,
}
use camannex.Base.Int.{ℤ, pos, minus_one, ltb_ℤ, leb_ℤ, pos_part}
use camannex.Buffer.{CircularBuffer}
use camannex.Buffer.Push.{push_all}
use camannex.Search.{find_flag, copy}

-- boost::system::error_code: `ec.value()` and `ec.message()` of a failure; success has value 0.
pub data ErrorCode : Type 0 where
  success : ErrorCode
  failure : (value : ℤ) (message : Bytes) → ErrorCode

abbrev pub value : ErrorCode → ℤ
value success = pos 0
value (failure v m) = v

-- The `errmsg_` that is kept: a handler sets it on failure only.
abbrev pub message_or : ErrorCode → Bytes → Bytes
message_or success old = old
message_or (failure v m) old = m

-- `!ec`
abbrev pub is_success : ErrorCode → Bool
is_success success = true
is_success (failure v m) = false

abbrev pub serial_buff_size : ℕ
serial_buff_size = 512

module _ (cb : CircularBuffer) where
  open cb use {Buf, items, capacity, erase_begin, set_capacity}

  -- The members of SerialComm. `reads` counts the asynchronous reads that wait, `writes` holds the
  -- bytes of each asynchronous write that waits, oldest first.
  pub record Serial : Type 0 where
    pub is_open : Bool
    pub errmsg : Bytes
    pub cbrcv : Bool
    pub cbsnd : Bool
    pub crcrcv : Buf
    pub crcsnd : Buf
    pub reads : ℕ
    pub writes : List Bytes

  -- The constructor, on two new buffers.
  unfoldable pub init : Buf → Buf → Serial
  init rcv snd = record {
    is_open = false;
    errmsg = [];
    cbrcv = false;
    cbsnd = false;
    crcrcv = set_capacity rcv (serial_buff_size * 10);
    crcsnd = set_capacity snd (serial_buff_size * 10);
    reads = 0;
    writes = [];
  }

  -- SerialComm::start_read
  unfoldable pub start_read : Serial → Serial
  start_read s = if s.is_open then record s { reads = s.reads + 1 } else s

  -- SerialComm::start_write
  unfoldable pub start_write : Serial → Serial
  start_write s =
      let n = length (items s.crcsnd) in
      if not (n == 0) then record s { writes = s.writes ++ items s.crcsnd ∷ [] } else s

  -- SerialComm::Open, with the result `ec` of opening the device.
  unfoldable pub open_port : ErrorCode → Serial → Serial × Bool
  unfolding start_read
  open_port ec s =
      if s.is_open
      then (s, true)
      else if is_success ec
      then (start_read (record s { is_open = true }), true)
      else (record s { errmsg = message_or ec s.errmsg }, false)

  -- SerialComm::Close
  unfoldable pub close : Serial → Serial
  close s = record s { is_open = false }

  -- SerialComm::RegisterRead and RegisterWrite: a slot that was connected is replaced.
  unfoldable pub register_read : Serial → Serial
  register_read s = record s { cbrcv = true }

  unfoldable pub register_write : Serial → Serial
  register_write s = record s { cbsnd = true }

  -- SerialComm::Lookup
  unfoldable pub lookup : Option Bytes → ℤ → ℤ → Serial → ℤ
  lookup none len from s = minus_one
  lookup (some flag) len from s =
      if leb_ℤ len (pos 0) || ltb_ℤ from (pos 0)
      then minus_one
      else find_flag flag (items s.crcrcv) (pos_part len) (pos_part from)

  -- SerialComm::Read: what is written to `buff`, its length being the result.
  unfoldable pub read : ℤ → ℤ → Serial → Bytes × Serial
  read len from s =
      if leb_ℤ len (pos 0) || ltb_ℤ from (pos 0)
      then ([], s)
      else let n0 = min (length (items s.crcrcv)) (pos_part from + pos_part len) in
        let i = n0 - pos_part from in
        let out = copy (items s.crcrcv) i (pos_part from) in
        (out, if not (i == 0) then record s { crcrcv = erase_begin s.crcrcv n0 } else s)

  -- SerialComm::Write: the number of bytes that it takes.
  unfoldable pub write : Option Bytes → ℤ → Serial → ℕ × Serial
  unfolding start_write
  write none len s = (0, s)
  write (some buff) len s =
      if leb_ℤ len (pos 0) || not s.is_open
      then (0, s)
      else let n0 = length (items s.crcsnd) in
        let n = min (capacity s.crcsnd - n0) (pos_part len) in
        let s' = record s { crcsnd = push_all cb s.crcsnd (take n buff) } in
        (n, if n0 == 0 then start_write s' else s')

  -- SerialComm::handle_read, with the `n` bytes that arrived in `bufrcv_`. `on_read` is the slot.
  unfoldable pub handle_read : (ℤ → Serial → Serial) → ErrorCode → Bytes → Serial → Serial
  unfolding start_read
  handle_read on_read ec bufrcv s =
      let s0 = record s { reads = s.reads - 1 } in
      let s1 =
        if is_success ec
        then record s0 { crcrcv = push_all cb s0.crcrcv bufrcv }
        else record s0 { errmsg = message_or ec s0.errmsg } in
      let s2 = if s1.cbrcv then on_read (value ec) s1 else s1 in
      if is_success ec then start_read s2 else s2

  -- SerialComm::handle_write up to the end of the scope of its lock.
  unfoldable pub finish_write : ErrorCode → ℕ → Serial → Serial
  finish_write ec n s =
      let s0 = record s { writes = rest_of s.writes } in
      if is_success ec
      then record s0 { crcsnd = erase_begin s0.crcsnd n }
      else record s0 { errmsg = message_or ec s0.errmsg }

  -- The rest of SerialComm::handle_write: the slot, and the next write.
  unfoldable pub continue_write : (ℤ → Serial → Serial) → ErrorCode → Serial → Serial
  unfolding start_write
  continue_write on_write ec s =
      let s1 = if s.cbsnd then on_write (value ec) s else s in
      if is_success ec then start_write s1 else s1

  unfoldable pub handle_write : (ℤ → Serial → Serial) → ErrorCode → ℕ → Serial → Serial
  unfolding finish_write continue_write
  handle_write on_write ec n s = continue_write on_write ec (finish_write ec n s)
