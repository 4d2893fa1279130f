-- ===== src/MessageQueue/Dispatch.antt =====
-- Which slots a message calls, and in which order messages are taken.
use camannex.Base.{
  get_or-set, ◌≡◌, [], ◌∷◌, ◌++◌, append-nil, Bool, ◌&&◌, if◌then◌else◌, arith, length, get_or,
}
use camannex.Base.Int.{ℤ, pos, ◌-ℤ◌, leb_ℤ, ltb_ℤ, eqb_ℤ, pos_part}
use camannex.MessageQueue.Queue.{PriorityQueue}
use camannex.MessageQueue.{MsgUnit, msg_user, mqfunc_size, MessageQueue, register_message, called}

-- The ids of user messages, 128 to 1151.
abbrev pub is_user : ℤ → Bool
is_user id = leb_ℤ msg_user id && ltb_ℤ id (pos 1152)

module _ (H : Type 0) (pq : PriorityQueue MsgUnit) where
  -- RegisterMessage accepts exactly the ids from 128 to 1151. A message then calls the slots that
  -- it called before, and behind them the new one if it was accepted and has the message's id.
  pub called-register_message :
      (id : ℤ) (slot : H) (msg : MsgUnit) (s : MessageQueue H pq)
      → length s.funcs ≡ mqfunc_size
      → let (s', accepted) = register_message H pq id slot s in
        (accepted ≡ is_user id)
        × (called H pq msg s'
            ≡ called H pq msg s ++ (if accepted && eqb_ℤ id msg.id then slot ∷ [] else []))
  unfolding register_message called
  called-register_message id slot msg s h =
      let i = pos_part (id -ℤ msg_user) in
      ground (
        arith,
        get_or-set s.funcs i (pos_part (msg.id -ℤ msg_user)) (get_or s.funcs i [] ++ slot ∷ []) [],
        append-nil (get_or s.funcs (pos_part (msg.id -ℤ msg_user)) []),
      )
