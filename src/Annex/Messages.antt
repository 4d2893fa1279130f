-- ===== src/Annex/Messages.antt =====
-- AnnexControl::register_messages and the callbacks that post, against the ids of MessageQueue.
pub mod Lost
use camannex.Base.{ℕ, List, [], ◌∷◌, Bool, true, false, Option, if◌then◌else◌, ◌>>=◌}
use camannex.Base.Int.{ℤ, pos, eqb_ℤ}
use camannex.MessageQueue.Queue.{PriorityQueue}
use camannex.MessageQueue.{MsgUnit, MessageQueue, register_message, post_message}

-- enum MSG_AC, which starts from 0
pub data MsgAc : Type 0 where
  connect_network receive_network close_network close_cooler close_vacuum : MsgAc

unfoldable pub msg_id : MsgAc → ℤ
msg_id connect_network = pos 0
msg_id receive_network = pos 1
msg_id close_network = pos 2
msg_id close_cooler = pos 3
msg_id close_vacuum = pos 4

-- The slot of a message is the handler of its name: on_connect_network and so on.
module _ (pq : PriorityQueue MsgUnit) where
  -- AnnexControl::register_messages, with what each registration returns.
  unfoldable pub register_messages : MessageQueue MsgAc pq → MessageQueue MsgAc pq × List Bool
  register_messages s0 =
      let (s1, r1) = register_message MsgAc pq (msg_id connect_network) connect_network s0 in
      let (s2, r2) = register_message MsgAc pq (msg_id receive_network) receive_network s1 in
      let (s3, r3) = register_message MsgAc pq (msg_id close_network) close_network s2 in
      let (s4, r4) = register_message MsgAc pq (msg_id close_cooler) close_cooler s3 in
      let (s5, r5) = register_message MsgAc pq (msg_id close_vacuum) close_vacuum s4 in
      (s5, r1 ∷ r2 ∷ r3 ∷ r4 ∷ r5 ∷ [])

  -- What calls back: the end of a connection attempt, network traffic, and a serial controller.
  pub data Callback : Type 0 where
    network_connect : (client ec : ℤ) → Callback
    network_receive : (client ec : ℤ) → Callback
    cooler_receive : (client ec : ℤ) → Callback
    vacuum_receive : (client ec : ℤ) → Callback

  -- The functions of these names. `!ec` is `ec == 0`.
  unfoldable pub called_back : Callback → MessageQueue MsgAc pq → Option (MessageQueue MsgAc pq)
  called_back (network_connect client ec) = post_message MsgAc pq (msg_id connect_network) client ec
  called_back (network_receive client ec) =
      post_message MsgAc pq (msg_id (if eqb_ℤ ec (pos 0) then receive_network else close_network))
        (pos 0) (pos 0)
  called_back (cooler_receive client ec) =
      post_message MsgAc pq (msg_id close_cooler) client (pos 0)
  called_back (vacuum_receive client ec) =
      post_message MsgAc pq (msg_id close_vacuum) client (pos 0)
