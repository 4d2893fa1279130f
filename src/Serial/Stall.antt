-- ===== src/Serial/Stall.antt =====
-- What a write that fails does to the port.
use camannex.Base.{
  ℕ, ◌≡◌, ◌≢◌, ◌∙◌, ap, List, [], ◌∷◌, Bytes, some, take, rest_of, append-ne-nil, if_same,
}
use camannex.Base.Int.{ℤ}
use camannex.Buffer.{CircularBuffer}
use camannex.Serial.{Serial, failure, write, handle_write}
use camannex.Serial.Send.{items-write, writes-write}

module _ (cb : CircularBuffer) where
  open cb use {items}

  -- The bytes of a sequence of Write calls.
  abbrev pub write_all : Serial cb → List (Bytes × ℤ) → Serial cb
  write_all s [] = s
  write_all s ((buff, len) ∷ calls) = write_all (write cb (some buff) len s).1 calls

  -- No write waits though the buffer holds a byte.
  pub record IsStalled (s : Serial cb) : Type 0 where
    pub waits_not : s.writes ≡ []
    pub holds : items s.crcsnd ≢ []

  pub write-IsStalled :
      (buff : Bytes) (len : ℤ) (s : Serial cb)
      → IsStalled s
      → IsStalled (write cb (some buff) len s).1
  write-IsStalled buff len s v = record {
    waits_not = (writes-write cb buff len s).1 v.holds ∙ v.waits_not;
    holds =
        let n = (write cb (some buff) len s).0 in
        rw (items-write cb buff len s) (append-ne-nil (items s.crcsnd) (take n buff) v.holds);
  }

  write_all-IsStalled :
      (calls : List (Bytes × ℤ)) (s : Serial cb) → IsStalled s → IsStalled (write_all s calls)
  write_all-IsStalled [] s v = v
  write_all-IsStalled ((buff, len) ∷ calls) s v =
      write_all-IsStalled calls (write cb (some buff) len s).1 (write-IsStalled buff len s v)

  failed_write-IsStalled :
      (v : ℤ) (m w : Bytes) (n : ℕ) (s : Serial cb)
      → s.writes ≡ w ∷ []
      → items s.crcsnd ≢ []
      → IsStalled (handle_write cb (λ c t. t) (failure v m) n s)
  unfolding handle_write
  failed_write-IsStalled v m w n s e ne = record {
    waits_not = rw (if_same s.cbsnd) (ap rest_of e);
    holds = rw (if_same s.cbsnd) ne;
  }

  -- After a write that fails while bytes are buffered, the port stalls: whatever Write is called
  -- with later, it starts no write, since it starts one only for an empty buffer; and the buffer
  -- keeps its bytes.
  pub failed_write_stalls :
      (v : ℤ) (m w : Bytes) (n : ℕ) (s : Serial cb) (calls : List (Bytes × ℤ))
      → s.writes ≡ w ∷ []
      → items s.crcsnd ≢ []
      → let s' = write_all (handle_write cb (λ c t. t) (failure v m) n s) calls in
        (s'.writes ≡ []) × (items s'.crcsnd ≢ [])
  failed_write_stalls v m w n s calls e ne =
      let stalled = write_all-IsStalled calls _ (failed_write-IsStalled v m w n s e ne) in
      (stalled.waits_not, stalled.holds)
