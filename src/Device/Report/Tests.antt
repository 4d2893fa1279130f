-- ===== src/Device/Report/Tests.antt =====
-- Reports of coolers and gauges to the network and the database.
use camannex.Base.{
  ℕ, ◌+◌, ◌<◌, ◌≡◌, refl, List, [], ◌∷◌, Bytes, codes, true, false, some, none, arith, length,
  replicate, append-nil, All, ◌≢◌, zero, suc, ◌^◌,
}
use mathlib.Core.List.{cons-ne-nil}
use camannex.Buffer.ListBuffer.{list_buffer}
use camannex.Tcp.{Client}
use camannex.Tcp
use camannex.Protocol
use camannex.Protocol.{vacuum_text}
use camannex.Protocol.Tests.{plain_strings}
use camannex.Transfer.Reply.{reply}
use camannex.Transfer.Upload.{Answer}
use camannex.Transfer.Requests.{client, IsTaken}
use camannex.Transfer.Tests.{answer, piece, cache, root}
use camannex.Device.Tests.{counted, reading}
use camannex.Device.Vacuum.{VacuumData}
use camannex.Device.Cooler.Outward.{upload_database}
use camannex.Device.Cooler.Database.{uploads, upload_database-uploads, upload_database-overflow}

-- A connected client with buffers, two bytes of which wait.
abbrev session : Client list_buffer
session = record (Tcp.init list_buffer (1500, []) (1500, codes "x\n")) {
  usebuf = true;
  is_open = true;
}

abbrev gauge : VacuumData ℕ
gauge = record { dirty = false; idd = 3; cur = 0; pres = codes "1e-3"; vol = 0 }

abbrev narrow : ℕ → ℕ
narrow n = n

taken :
    (bytes : Bytes)
    → All (λ c. c ≢ 0) bytes
    → length bytes + 1 < 2 ^ 64
    → IsTaken (answer (piece bytes ∷ []))
unfolding reply
taken bytes text fits = (
  (refl, refl, refl, refl),
  cons-ne-nil _ _,
  (((refl, omega arith), tt), rw append-nil text, rw append-nil fits),
)

no_zeros : (n : ℕ) → All {A = ℕ} (λ c. c ≢ 0) (replicate n b'x')
no_zeros zero = tt
no_zeros (suc n) = (ground arith, no_zeros n)

abbrev take_all : List Answer
take_all = answer (piece (codes "ok") ∷ []) ∷ answer (piece (codes "fine") ∷ []) ∷ []

upload_database-uploads_example :
    upload_database counted plain_strings narrow
      (λ n. [])
      (codes "s")
      (client cache root)
      (codes "001")
      (codes "now")
      take_all
      (reading 1 true ∷ reading 12 false ∷ [])
    ≡ some (
        uploads counted plain_strings narrow
          (λ n. [])
          (codes "s")
          cache
          root
          (codes "001")
          (codes "now")
          take_all
          (reading 1 true ∷ reading 12 false ∷ []))
unfolding reply
upload_database-uploads_example =
    upload_database-uploads counted plain_strings narrow (λ n. []) (codes "s") cache root
      (codes "001") (codes "now") take_all (reading 1 true ∷ reading 12 false ∷ []) (omega arith)
      refl
      (
        (taken (codes "ok") (ground arith, (ground arith, tt)) (omega arith), omega arith),
        (
          (
            taken (codes "fine") (ground arith, (ground arith, (ground arith, (ground arith, tt))))
                (omega arith),
            omega arith,
          ),
          tt,
        ),
      )

abbrev long_text : Answer
long_text = answer (piece (replicate 199 b'x') ∷ [])

upload_database-overflow_example :
    upload_database counted plain_strings narrow
      (λ n. [])
      (codes "s")
      (client cache root)
      (codes "001")
      (codes "now")
      (long_text ∷ [])
      (reading 1 true ∷ [])
    ≡ none
unfolding reply
upload_database-overflow_example =
    upload_database-overflow counted plain_strings narrow (λ n. []) (codes "s") cache root
      (codes "001") (codes "now") long_text [] (reading 1 true) [] (omega arith)
      (taken (replicate 199 b'x') (no_zeros 199) (omega arith)) (omega arith)
