-- ===== src/MessageQueue/Order.antt =====
-- The order in which posted and sent messages are taken, and what Stop leaves behind.
use camannex.Base.{
  ℕ, zero, suc, ◌≤◌, ◌<◌, ◌≡◌, refl, ap, ◌∙◌, List, [], ◌∷◌, ◌++◌, true, false, not, none, some,
  arith, length, All, leb,
}
use camannex.Base.Int.{ℤ, pos, eqb_ℤ}
use camannex.MessageQueue.Queue.{PriorityQueue, insert_by}
use camannex.MessageQueue.{
  MsgUnit, msg_quit, MessageQueue, Call, called, post_message, send_message, thread_round, join,
  stop,
}

module _ {A : Type 0} where
  -- Behind messages of the same priority, and in front of those of a lower one.
  insert_by-behind :
      (p : ℕ) (m : A) (xs : List (ℕ × A))
      → All (λ e. p ≤ e.0) xs
      → insert_by p m xs ≡ xs ++ (p, m) ∷ []
  insert_by-behind p m [] h = refl
  insert_by-behind p m ((q, k) ∷ xs) (h, hs) =
      let e : leb p q ≡ true = ground arith in rw e (ap (◌∷◌ (q, k)) (insert_by-behind p m xs hs))

  insert_by_first :
      (p : ℕ) (m : A) (xs : List (ℕ × A)) → All (λ e. e.0 < p) xs → insert_by p m xs ≡ (p, m) ∷ xs
  insert_by_first p m [] h = refl
  insert_by_first p m ((q, k) ∷ xs) (h, hs) = let e : leb p q ≡ false = ground arith in rw e refl

module _ (H : Type 0) (pq : PriorityQueue MsgUnit) where
  open pq use {Q, order, max_msg, send, receive, send_room, receive_next}

  -- With room in the queue a posted message is taken after all that wait, whatever their priority
  -- of at least 1 is.
  pub post_message_last :
      (id p1 p2 : ℤ) (q : Q) (s : MessageQueue H pq)
      → s.mq ≡ some q
      → length (order q) < max_msg q
      → All (λ e. 1 ≤ e.0) (order q)
      → (r : Q) × (post_message H pq id p1 p2 s ≡ some (record s { mq = some r }))
        × (order r ≡ order q ++ (1, record { id = id; par1 = p1; par2 = p2 }) ∷ [])
  unfolding post_message
  post_message_last id p1 p2 q s e room low =
      let msg : MsgUnit = record { id = id; par1 = p1; par2 = p2 } in
      let (r, sent, o, _) = send_room q 1 msg room in
      (r, rw (e, sent), o ∙ insert_by-behind 1 msg (order q) low)

  -- With room in the queue a sent message is taken before all posted ones.
  pub send_message_first :
      (id p1 p2 : ℤ) (q : Q) (s : MessageQueue H pq)
      → s.mq ≡ some q
      → length (order q) < max_msg q
      → All (λ e. e.0 < 10) (order q)
      → (r : Q) × (send_message H pq id p1 p2 s ≡ some (record s { mq = some r }))
        × (order r ≡ (10, record { id = id; par1 = p1; par2 = p2 }) ∷ order q)
  unfolding send_message
  send_message_first id p1 p2 q s e room low =
      let msg : MsgUnit = record { id = id; par1 = p1; par2 = p2 } in
      let (r, sent, o, _) = send_room q 10 msg room in
      (r, rw (e, sent), o ∙ insert_by_first 10 msg (order q) low)

  -- The thread takes the first message, calls its slots, and goes on unless it is MSG_QUIT.
  pub thread_round_lem :
      (p : ℕ) (msg : MsgUnit) (rest : List (ℕ × MsgUnit)) (q : Q) (s : MessageQueue H pq)
      → s.mq ≡ some q
      → order q ≡ (p, msg) ∷ rest
      → (r : Q) × (thread_round H pq s
          ≡ some (
            record { msg = msg; slots = called H pq msg s },
            record s { mq = some r; running = not (eqb_ℤ msg.id msg_quit) },
          ))
        × (order r ≡ rest)
  unfolding thread_round
  thread_round_lem p msg rest q s e o =
      let (r, taken, left, _) = receive_next q p msg rest o in (r, ground (arith, taken), left)

  join_ended :
      (fuel : ℕ) (s : MessageQueue H pq) → s.running ≡ false → join H pq fuel s ≡ some ([], s)
  unfolding join
  join_ended zero s e = rw e
  join_ended (suc fuel) s e = ground arith

  join_once :
      (fuel : ℕ) (c : Call H pq) (s s' : MessageQueue H pq)
      → s.running ≡ true
      → thread_round H pq s ≡ some (c, s')
      → s'.running ≡ false
      → join H pq (suc fuel) s ≡ some (c ∷ [], s')
  unfolding join
  join_once fuel c s s' runs e done = ground (arith, join_ended fuel s' done)

  -- MSG_QUIT is no user message, and calls nothing.
  no_slots :
      (s : MessageQueue H pq)
      → called H pq (record { id = msg_quit; par1 = pos 0; par2 = pos 0 }) s ≡ []
  unfolding called
  no_slots s = refl

  -- Where the thread runs and no message of priority 10 waits, Stop ends the thread with one round
  -- that calls nothing, and drops the queue with every message that was posted and not yet taken.
  pub stop_drops_posted :
      (fuel : ℕ) (q : Q) (s : MessageQueue H pq)
      → s.mq ≡ some q
      → s.thrdmsg ≡ true
      → s.running ≡ true
      → length (order q) < max_msg q
      → All (λ e. e.0 < 10) (order q)
      → stop H pq (suc fuel) s
        ≡ some (
          record { msg = record { id = msg_quit; par1 = pos 0; par2 = pos 0 }; slots = [] } ∷ [],
          record s { mq = none; thrdmsg = false; running = false },
        )
  unfolding stop
  stop_drops_posted fuel q s e alive runs room low =
      let (t, sent, o) = send_message_first msg_quit (pos 0) (pos 0) q s e room low in
      let (r, taken, _) = thread_round_lem 10 _ (order q) t (record s { mq = some t }) refl o in
      let joined = join_once fuel _ (record s { mq = some t }) _ runs taken refl in
      ground (arith, sent, joined, no_slots (record s { mq = some t }))
