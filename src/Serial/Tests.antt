-- ===== src/Serial/Tests.antt =====
-- Runs of the port on a list as its buffer.
use camannex.Base.{◌≡◌, ◌≢◌, refl, [], ◌∷◌, ◌++◌, some, codes, arith}
use camannex.Base.Int.{pos}
use mathlib.Core.List.{cons-ne-nil}
use camannex.Buffer.ListBuffer.{list_buffer}
use camannex.Buffer.Push.{push_all}
use camannex.Search.First.{Answer}
use camannex.Serial.{
  Serial, success, failure, init, open_port, start_write, write, lookup, handle_write, finish_write,
  continue_write,
}
use camannex.Serial.Send.{
  Line, writes, sent, advance, Reach, here, next, IsIdle, Waiting, send_in_order,
}
use camannex.Serial.Receive.{lookup-Answer}
use camannex.Serial.Stall.{write_all, failed_write_stalls}
use camannex.Serial.Race.{write_in_between_sends_twice}

abbrev opened : Serial list_buffer
opened = (open_port list_buffer success (init list_buffer (0, []) (0, []))).0

abbrev idle : Line list_buffer
idle = record { port = opened; accepted = []; delivered = [] }

-- Two bytes are written, and the device takes the first of them.
abbrev partly : Line list_buffer
partly = advance list_buffer (advance list_buffer idle (writes (codes "hi") (pos 2))) (sent 1)

idle-IsIdle : IsIdle list_buffer idle
unfolding open_port init
idle-IsIdle = (refl, refl, refl, refl)

partly-Reach : Reach list_buffer idle partly
unfolding advance open_port init write start_write push_all
partly-Reach =
    next (next here (writes (codes "hi") (pos 2)) tt) (sent 1) (cons-ne-nil _ _, omega arith)

send_in_order_example :
    (partly.accepted ≡ partly.delivered ++ list_buffer.items partly.port.crcsnd)
    × Waiting list_buffer partly.port
send_in_order_example = send_in_order list_buffer idle-IsIdle partly-Reach

-- A port that received noise and a frame.
abbrev received : Serial list_buffer
received = record opened { crcrcv = (5120, codes "x:21y") }

lookup-Answer_example :
    Answer
      (codes ":2")
      (codes "x:21y")
      2
      0
      (lookup list_buffer (some (codes ":2")) (pos 2) (pos 0) received)
lookup-Answer_example = lookup-Answer list_buffer (codes ":2") 2 0 received (omega arith)

-- A port on which a write waits.
abbrev sending : Serial list_buffer
sending = record opened { crcsnd = (5120, codes "hi"); writes = codes "hi" ∷ [] }

failed_write_stalls_example :
    let s' =
      write_all list_buffer
        (handle_write list_buffer (λ c t. t) (failure (pos 5) (codes "eio")) 0 sending)
        ((codes "more", pos 4) ∷ []) in
    (s'.writes ≡ []) × (list_buffer.items s'.crcsnd ≢ [])
failed_write_stalls_example =
    failed_write_stalls list_buffer (pos 5) (codes "eio") (codes "hi") 0 sending
      ((codes "more", pos 4) ∷ []) refl (cons-ne-nil _ _)

write_in_between_sends_twice_example :
    let s1 = finish_write list_buffer success 2 sending in
    let s2 = (write list_buffer (some (codes "yo")) (pos 2) s1).1 in
    (continue_write list_buffer (λ c t. t) success s2).writes ≡ codes "yo" ∷ codes "yo" ∷ []
unfolding finish_write write start_write push_all open_port init
write_in_between_sends_twice_example =
    write_in_between_sends_twice list_buffer (codes "hi") (codes "yo") (pos 2) sending refl refl
      (cons-ne-nil _ _)
