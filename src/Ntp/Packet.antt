-- ===== src/Ntp/Packet.antt =====
-- The layout of the request of NTPClient, and what is read back of it.
use camannex.Base.{
  ◌+◌, ◌%◌, ◌^◌, ◌≡◌, refl, [], ◌∷◌, ◌++◌, Bytes, drop, replicate, arith, drop-drop,
}
use camannex.Base.Real.{Real}
use camannex.Transfer.Reply.{copy_to}
use camannex.Ntp.{
  TimeVal, read_time, network_word, read_word, put_long, construct_packet, fraction, jan_1970,
}

module _ (real : Real) where
  -- The request that construct_packet leaves in the 384 bytes: version 4 and mode 3, a poll interval of
  -- 4 and a precision of -6, delay and dispersion of one second, no time stamp but that of sending, four
  -- zeros behind it, and the rest as it was.
  pub construct_packet_layout :
      (now : TimeVal) (memory : Bytes)
      → construct_packet real now memory
        ≡ (0x23 ∷ 0 ∷ 4 ∷ 0xFA ∷ 0 ∷ 1 ∷ 0 ∷ 0 ∷ 0 ∷ 1 ∷ 0 ∷ 0 ∷ [])
          ++ (replicate 28 0
              ++ (network_word ((jan_1970 + now.sec) % 2 ^ 32)
                  ++ (network_word (fraction real now.usec) ++ (replicate 4 0 ++ drop 52 memory))))
  unfolding construct_packet put_long network_word copy_to
  construct_packet_layout now memory = rw (drop-drop 4 48 memory) refl

  -- A server that reads the request finds the clock of the client, modulo 2^32 seconds, as the time of
  -- sending.
  pub read_time-construct_packet :
      (now : TimeVal) (memory : Bytes)
      → read_time (construct_packet real now memory) 40
        ≡ record { coarse = (jan_1970 + now.sec) % 2 ^ 32; fine = fraction real now.usec }
  unfolding construct_packet put_long network_word copy_to read_time read_word fraction
  read_time-construct_packet now memory = ground arith
