-- ===== src/Tcp/Receive.antt =====
-- What arrives on the connection, and what Lookup and Read make of it.
use camannex.Base.{
  ℕ, ◌+◌, ◌-◌, ◌<◌, ◌≡◌, refl, Bytes, true, false, ◌==◌, ◌&&◌, some, arith, min, length, take, drop,
  ◌++◌, length-take, length-drop, if◌then◌else◌, ltb, ◌≤◌, Bool-cases, inl, inr,
}
use camannex.Base.Int.{pos}
use camannex.Buffer.{CircularBuffer}
use camannex.Buffer.Push.{push_all_newest}
use camannex.Search.First.{Answer, find_flag-Answer}
use camannex.Serial.{ErrorCode, success, failure, is_success}
use camannex.Serial.Receive.{guard_passes, copied}
use camannex.Tcp.{Client, received, lookup, read, handle_read, start_read}

module _ (cb : CircularBuffer) where
  open cb use {items, capacity, erase_begin, items-erase_begin}

  -- With a buffer and without, for a flag of positive length and a start that is not negative,
  -- Lookup returns the first position from the start on at which the flag stands among the bytes
  -- that were received and not yet read, or -1 if it stands at none.
  pub lookup-received-Answer :
      (flag : Bytes) (len from : ℕ) (s : Client cb)
      → 0 < len
      → Answer flag (received cb s) len from (lookup cb (some flag) (pos len) (pos from) s)
  unfolding lookup
  lookup-received-Answer flag len from s h =
      rw (guard_passes len from h) (find_flag-Answer flag (received cb s) len from)

  -- With a buffer, for a positive length and a start whose sum is an `int`, Read returns the bytes
  -- that the buffer holds from the start on, at most `len`. It removes as many bytes as it returns,
  -- from the front of the buffer: these are other bytes than those returned where the start is not 0.
  pub read_buffered :
      (len from : ℕ) (s : Client cb)
      → 0 < len
      → from + len ≤ 2147483647
      → s.usebuf ≡ true
      → let (out, s') = read cb (pos len) (pos from) s in
        (out ≡ take len (drop from (items s.crcrcv)))
        × (items s'.crcrcv ≡ drop (length out) (items s.crcrcv))
  unfolding read
  read_buffered len from s h small used =
      let whole : ltb 2147483647 (from + len) ≡ false = ground arith in
      let xs = items s.crcrcv in
      let i = min (length xs) (from + len) - from in
      let out = copied xs len from in
      let size : length (take len (drop from xs)) ≡ i =
        omega (arith, length-take len (drop from xs), length-drop from xs) in
      rw (guard_passes len from h, used, whole, out, size)
        (
          refl,
          (elim (Bool-cases (i == 0)) [
            | inl none_read ↦ let nothing : i ≡ 0 = ground arith in rw none_read (rw nothing)
            | inr some_read ↦ rw some_read (items-erase_begin s.crcrcv i (omega arith))
          ]),
        )

  -- A read that arrives without error on a client with a buffer leaves the newest bytes that fit,
  -- with the bytes that were there in front, where the slot leaves the client alone; the next read
  -- is started if the socket is open. An error leaves the buffer as it was and starts no read.
  pub handle_read_buffered :
      (ec : ErrorCode) (chunk : Bytes) (s : Client cb)
      → s.usebuf ≡ true
      → let s' = handle_read cb (λ v t. t) ec chunk s in
        (items s'.crcrcv ≡ (
          if is_success ec
          then drop
              (length (items s.crcrcv) + length chunk - capacity s.crcrcv)
              (items s.crcrcv ++ chunk)
          else items s.crcrcv))
        × (s'.reads ≡ (if is_success ec && s.is_open then s.reads - 1 + 1 else s.reads - 1))
  unfolding handle_read start_read
  handle_read_buffered success chunk s used = ground (arith, push_all_newest cb s.crcrcv chunk)
  handle_read_buffered (failure v m) chunk s used = ground arith
