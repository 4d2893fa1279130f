-- ===== src/MessageQueue.antt =====
-- src/MessageQueue.cpp and src/MessageQueue.h: registration, posting and the thread that dispatches.
-- boost::interprocess::message_queue is a parameter with its documented order: receive takes the
-- oldest message of the highest priority, and send waits while the queue is full.
pub mod Queue
pub mod Dispatch
pub mod Order
pub mod Tests
use camannex.Base.{
  ℕ, zero, suc, ◌+◌, ◌-◌, List, [], ◌∷◌, ◌++◌, Bool, true, false, not, ◌&&◌, Option, none, some,
  if◌then◌else◌, ltb, leb, ◌==◌, length, set, get_or, replicate, ◌>>=◌,
}
use Queue.{PriorityQueue}
use mathlib.Core.Option
use camannex.Base.Int.{ℤ, pos, ◌-ℤ◌, leb_ℤ, ltb_ℤ, eqb_ℤ, pos_part}

-- MSG_UNIT
pub record MsgUnit : Type 0 where
  pub id : ℤ
  pub par1 : ℤ
  pub par2 : ℤ

abbrev pub msg_quit : ℤ
msg_quit = pos 0

abbrev pub msg_user : ℤ
msg_user = pos 128

abbrev pub mqfunc_size : ℕ
mqfunc_size = 1024

-- `H` stands for the slots that are connected: the functions that a message calls.
module _ (H : Type 0) (pq : PriorityQueue MsgUnit) where
  open pq use {Q, send, receive}

  -- The members of MessageQueue: `thrdmsg` tells whether the pointer to the thread is set, `funcs`
  -- has the slots of each message in the order of their connection. `running` tells whether the
  -- loop of the thread still goes round.
  pub record MessageQueue : Type 0 where
    pub mq : Option Q
    pub thrdmsg : Bool
    pub running : Bool
    pub funcs : List (List H)

  -- The constructor
  unfoldable pub init : MessageQueue
  init = record { mq = none; thrdmsg = false; running = false; funcs = replicate mqfunc_size [] }

  abbrev in_range : ℤ → Bool
  in_range p = leb_ℤ (pos 0) p && ltb_ℤ p (pos mqfunc_size)

  -- MessageQueue::RegisterMessage
  unfoldable pub register_message : ℤ → H → MessageQueue → MessageQueue × Bool
  register_message id slot s =
      let p = id -ℤ msg_user in
      let i = pos_part p in
      if in_range p
      then (record s { funcs = set s.funcs i (get_or s.funcs i [] ++ slot ∷ []) }, true)
      else (s, false)

  -- Where there is no queue, nothing is sent; `none` means that the call waits.
  abbrev send_with : ℕ → MsgUnit → MessageQueue → Option MessageQueue
  send_with priority msg s = elim s.mq [
    | none ↦ some s
    | some q ↦ Option.map (λ r. record s { mq = some r }) (send q priority msg)
  ]

  -- MessageQueue::PostMessage
  unfoldable pub post_message : ℤ → ℤ → ℤ → MessageQueue → Option MessageQueue
  post_message id p1 p2 = send_with 1 (record { id = id; par1 = p1; par2 = p2 })

  -- MessageQueue::SendMessage
  unfoldable pub send_message : ℤ → ℤ → ℤ → MessageQueue → Option MessageQueue
  send_message id p1 p2 = send_with 10 (record { id = id; par1 = p1; par2 = p2 })

  -- MessageQueue::Start, with the result of creating the queue (`none`: it throws).
  unfoldable pub start : Option Q → MessageQueue → MessageQueue × Bool
  start created s = if s.thrdmsg then (s, true) else elim created [
    | none ↦ (s, false)
    | some q ↦ (record s { mq = some q; thrdmsg = true; running = true }, true)
  ]

  -- The slots that the message calls, in order.
  unfoldable pub called : MsgUnit → MessageQueue → List H
  called msg s =
      let p = msg.id -ℤ msg_user in if in_range p then get_or s.funcs (pos_part p) [] else []

  -- A message that the thread received, with the slots that it calls.
  pub record Call : Type 0 where
    pub msg : MsgUnit
    pub slots : List H

  -- One round of MessageQueue::thread_message. `none`: there is no queue, or receive waits.
  unfoldable pub thread_round : MessageQueue → Option (Call × MessageQueue)
  thread_round s = elim s.mq [
    | none ↦ none
    | some q ↦ elim (receive q) [
      | none ↦ none
      | some (msg, r) ↦ some (
        record { msg = msg; slots = called msg s },
        record s { mq = some r; running = not (eqb_ℤ msg.id msg_quit) },
      )
    ]
  ]

  -- Rounds until the loop ends, with what they call. `none`: the thread waits, or the fuel is used.
  unfoldable pub join : ℕ → MessageQueue → Option (List Call × MessageQueue)
  join zero s = if s.running then none else some ([], s)
  join (suc fuel) s =
      let more = thread_round s >>= λ r. join fuel r.1 >>= λ t. some (r.0 ∷ t.0, t.1) in
      if s.running then more else some ([], s)

  -- MessageQueue::Stop, with what the thread still calls.
  unfoldable pub stop : ℕ → MessageQueue → Option (List Call × MessageQueue)
  stop fuel s =
      let joined : Option (List Call × MessageQueue) =
        send_message msg_quit (pos 0) (pos 0) s >>= λ t.
        join fuel t >>= λ r. some (r.0, record r.1 { thrdmsg = false }) in
      let stopped : Option (List Call × MessageQueue) =
        if s.thrdmsg then joined else some ([], s) in
      stopped >>= λ r. some (r.0, record r.1 { mq = none })
