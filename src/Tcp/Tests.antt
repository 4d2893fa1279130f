-- ===== src/Tcp/Tests.antt =====
-- Runs of a client on a list as its buffer.
use camannex.Base.{◌≡◌, refl, List, [], ◌∷◌, true, some, codes, arith}
use camannex.Base.Int.{pos, minus_one}
use camannex.Buffer.ListBuffer.{list_buffer}
use camannex.Serial.{success}
use camannex.Tcp.{
  Client, init, start_read, connect, async_connect, register_read, lookup, read, write,
  handle_connect, handle_read,
}
use camannex.Tcp.Server.{Server}
use camannex.Tcp.Run.{
  Step, connects, connects_async, registers_read, connected, arrived, writes, run, advance,
  unbuffered_reads_nothing, connect_starts_no_read,
}

abbrev made : Client list_buffer
made = init list_buffer (0, []) (0, [])

-- A client with a buffer that received some bytes.
abbrev buffered : Client list_buffer
buffered = record made { is_open = true; usebuf = true; crcrcv = (15000, codes "x:21y"); reads = 1 }

-- A client that was connected and that two bytes arrived at.
abbrev arrival : List Step
arrival =
    connects_async true ∷ registers_read ∷ connected success ∷ arrived success (codes "ok") ∷ []

abbrev after_arrival : Client list_buffer
after_arrival = record made { is_open = true; cbrcv = true; bufrcv = codes "ok"; reads = 1 }

unbuffered_reads_nothing_example :
    (lookup list_buffer (some (codes "ok")) (pos 2) (pos 0) after_arrival ≡ minus_one)
    × (read list_buffer (pos 2) (pos 0) after_arrival ≡ ([], after_arrival))
unfolding init run advance async_connect register_read handle_connect handle_read start_read
unbuffered_reads_nothing_example =
    unbuffered_reads_nothing list_buffer (λ v t. t) (λ v t. t) (λ n t. t) (0, []) (0, []) arrival
      after_arrival (codes "ok") 2 0 (λ v t. refl, λ v t. refl, λ n t. refl) refl refl (omega arith)
      (omega arith)

connect_starts_no_read_example : (record made { is_open = true; direct = codes "hi" }).reads ≡ 0
unfolding init run advance connect write
connect_starts_no_read_example =
    connect_starts_no_read list_buffer (λ v t. t) (λ v t. t) (λ n t. t) (0, []) (0, [])
      (connects success true ∷ writes (codes "hi") (pos 2) 2 ∷ [])
      (record made { is_open = true; direct = codes "hi" }) (λ n t. (refl, refl)) (refl, (refl, tt))
      refl

abbrev accepting : Server list_buffer
accepting = record { is_open = true; cbaccept = true; accepts = 1; accepted = [] }
