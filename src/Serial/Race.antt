-- ===== src/Serial/Race.antt =====
-- Write between the two halves of handle_write: the lock of handle_write ends before start_write.
use camannex.Base.{
  ◌≡◌, ◌≢◌, refl, ◌∙◌, ap, [], ◌∷◌, ◌++◌, Bytes, some, rest_of, length, arith, drop-length, if_same,
}
use camannex.Base.Int.{ℤ}
use camannex.Buffer.{CircularBuffer}
use camannex.Serial.{Serial, success, write, finish_write, continue_write}
use camannex.Serial.Send.{started, writes-start_write, writes-write}

module _ (cb : CircularBuffer) where
  open cb use {items, items-erase_begin}

  started-single : (xs : Bytes) → xs ≢ [] → started cb xs ≡ xs ∷ []
  started-single [] ne = absurd (ne refl)
  started-single (x ∷ xs) ne = refl

  -- handle_write gives up its lock before it starts the next write. If Write is called in between,
  -- with all bytes of the buffer delivered, and takes a byte, then two writes of the same bytes
  -- wait at once: all bytes that the buffer holds are handed to the device twice.
  pub write_in_between_sends_twice :
      (w buff : Bytes) (len : ℤ) (s : Serial cb)
      → s.writes ≡ w ∷ []
      → items s.crcsnd ≡ w
      → let s1 = finish_write cb success (length w) s in
        let s2 = (write cb (some buff) len s1).1 in
        items s2.crcsnd ≢ []
        → (continue_write cb (λ c t. t) success s2).writes ≡ items s2.crcsnd ∷ items s2.crcsnd ∷ []
  unfolding finish_write continue_write
  write_in_between_sends_twice w buff len s e all_sent ne =
      let s1 = finish_write cb success (length w) s in
      let s2 = (write cb (some buff) len s1).1 in
      let emptied : items s1.crcsnd ≡ [] =
        items-erase_begin s.crcsnd (length w) (omega (arith, ap length all_sent))
        ∙ rw all_sent (drop-length (length w) w (omega arith)) in
      let first : s2.writes ≡ items s2.crcsnd ∷ [] =
        (writes-write cb buff len s1).0 emptied
        ∙ ap (λ ws. rest_of ws ++ started cb (items s2.crcsnd)) e
        ∙ started-single (items s2.crcsnd) ne in
      rw (if_same s2.cbsnd)
        (writes-start_write cb s2 ∙ rw (first, started-single (items s2.crcsnd) ne))
