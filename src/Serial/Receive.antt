-- ===== src/Serial/Receive.antt =====
-- What arrives on the port, and what Lookup and Read make of it.
use camannex.Base.{
  ℕ, ◌+◌, ◌-◌, ◌<◌, ◌≡◌, refl, ◌++◌, Bytes, true, false, some, arith, min, length, take, drop,
  length-drop, take_past_end, drop_past_end, ◌||◌, ◌&&◌, ◌==◌, if◌then◌else◌, ltb,
}
use camannex.Base.Int.{pos, leb_ℤ, ltb_ℤ}
use native.Mathlib.Decide.{dec_lt}
use camannex.Buffer.{CircularBuffer}
use camannex.Buffer.Push.{push_all_newest}
use camannex.Search.{copy}
use camannex.Search.First.{Answer, find_flag-Answer}
use camannex.Search.Copy.{copy-take-drop}
use camannex.Serial.{
  Serial, ErrorCode, success, failure, is_success, message_or, lookup, read, handle_read,
}

pub guard_passes :
    (len from : ℕ) → 0 < len → (leb_ℤ (pos len) (pos 0) || ltb_ℤ (pos from) (pos 0)) ≡ false
guard_passes len from h = ground arith

-- The bytes that the loop of Read copies.
pub copied :
    (xs : Bytes) (len from : ℕ)
    → copy xs (min (length xs) (from + len) - from) from ≡ take len (drop from xs)
copied xs len from = elim (dec_lt from (length xs)) [
  | yes inside ↦
      rw (copy-take-drop xs (min (length xs) (from + len) - from) from (omega arith))
        (take_past_end _ len (drop from xs) (omega (arith, length-drop from xs)))
  | no past ↦
      let none_left : min (length xs) (from + len) - from ≡ 0 = omega arith in
      let same : take 0 (drop from xs) ≡ take len (drop from xs) =
        take_past_end 0 len (drop from xs) (omega (arith, length-drop from xs)) in
      rw none_left (unfold copy in same)
]

module _ (cb : CircularBuffer) where
  open cb use {items, capacity, erase_begin, items-erase_begin}

  -- For a flag of positive length and a start that is not negative, Lookup returns the first
  -- position from the start on at which the flag stands, or -1 if it stands at none.
  pub lookup-Answer :
      (flag : Bytes) (len from : ℕ) (s : Serial cb)
      → 0 < len
      → Answer flag (items s.crcrcv) len from (lookup cb (some flag) (pos len) (pos from) s)
  unfolding lookup
  lookup-Answer flag len from s h =
      rw (guard_passes len from h) (find_flag-Answer flag (items s.crcrcv) len from)

  -- For a positive length and a start that is not negative, Read returns the bytes that the buffer
  -- holds from the start on, at most `len`. If there is one, it removes all bytes up to the last
  -- that it returned, and else it leaves the buffer alone.
  pub read_lem :
      (len from : ℕ) (s : Serial cb)
      → 0 < len
      → let (out, s') = read cb (pos len) (pos from) s in
        (out ≡ take len (drop from (items s.crcrcv)))
        × (items s'.crcrcv ≡ (
            if ltb from (length (items s.crcrcv))
            then drop (from + len) (items s.crcrcv)
            else items s.crcrcv))
  unfolding read
  read_lem len from s h =
      let xs = items s.crcrcv in
      let n0 = min (length xs) (from + len) in
      rw (guard_passes len from h, copied xs len from)
        (
          refl,
          (elim (dec_lt from (length xs)) [
            | yes inside ↦
                let some_read : ((n0 - from) == 0) ≡ false = ground arith in
                let there : ltb from (length xs) ≡ true = ground arith in
                rw (some_read, there, items-erase_begin s.crcrcv n0 (omega arith))
                  (drop_past_end n0 (from + len) xs (omega arith))
            | no past ↦
                let none_read : ((n0 - from) == 0) ≡ true = ground arith in
                let gone : ltb from (length xs) ≡ false = ground arith in rw (none_read, gone)
          ]),
        )

  -- A read that arrives without error leaves the newest bytes that fit, with the bytes that were
  -- there in front, where the slot leaves the port alone; an error leaves the bytes as they were,
  -- keeps its message and starts no further read.
  pub handle_read_lem :
      (ec : ErrorCode) (chunk : Bytes) (s : Serial cb)
      → let s' = handle_read cb (λ v t. t) ec chunk s in
        (items s'.crcrcv ≡ (
          if is_success ec
          then drop
              (length (items s.crcrcv) + length chunk - capacity s.crcrcv)
              (items s.crcrcv ++ chunk)
          else items s.crcrcv))
        × (s'.errmsg ≡ message_or ec s.errmsg)
        × (s'.reads ≡ (if is_success ec && s.is_open then s.reads - 1 + 1 else s.reads - 1))
  unfolding handle_read
  handle_read_lem success chunk s = ground (arith, push_all_newest cb s.crcrcv chunk)
  handle_read_lem (failure v m) chunk s = ground arith
