-- ===== src/MessageQueue/Tests.antt =====
-- Runs of the queue on a bounded list, with numbers for the slots.
use camannex.Base.{ℕ, ◌≡◌, refl, List, [], ◌∷◌, ◌++◌, true, false, some, none, arith}
use camannex.Base.Int.{pos}
use camannex.MessageQueue.Queue.{list_queue}
use camannex.MessageQueue.{MsgUnit, MessageQueue, init, register_message, called, stop}
use camannex.MessageQueue.Dispatch.{called-register_message}
use camannex.MessageQueue.Order.{stop_drops_posted}

abbrev message : ℕ → MsgUnit
message n = record { id = pos n; par1 = pos 0; par2 = pos 0 }

abbrev waiting : ℕ × List (ℕ × MsgUnit)
waiting = (1024, (1, message 130) ∷ [])

abbrev fresh : MessageQueue ℕ (list_queue MsgUnit)
fresh = init ℕ (list_queue MsgUnit)

abbrev running : MessageQueue ℕ (list_queue MsgUnit)
running = record fresh { mq = some waiting; thrdmsg = true; running = true }

called-register_message_example :
    let (s', accepted) = register_message ℕ (list_queue MsgUnit) (pos 130) 7 fresh in
    (accepted ≡ true)
    × (called ℕ (list_queue MsgUnit) (message 130) s'
        ≡ called ℕ (list_queue MsgUnit) (message 130) fresh ++ 7 ∷ [])
unfolding register_message init
called-register_message_example =
    called-register_message ℕ (list_queue MsgUnit) (pos 130) 7 (message 130) fresh refl

stop_drops_posted_example :
    stop ℕ (list_queue MsgUnit) 1 running
    ≡ some (
      record { msg = message 0; slots = [] } ∷ [],
      record running { mq = none; thrdmsg = false; running = false },
    )
stop_drops_posted_example =
    stop_drops_posted ℕ (list_queue MsgUnit) 0 waiting running refl refl refl (omega arith)
      (omega arith, tt)
