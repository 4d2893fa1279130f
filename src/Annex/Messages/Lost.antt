-- ===== src/Annex/Messages/Lost.antt =====
-- No message of AnnexControl reaches its handler.
use camannex.Base.{
  ◌≡◌, refl, ◌<◌, ◌∙◌, ap, not, [], ◌∷◌, ◌++◌, Bool, true, false, some, arith, if◌then◌else◌,
}
use camannex.Base.Int.{pos, eqb_ℤ}
use camannex.MessageQueue.Queue.{PriorityQueue}
use camannex.MessageQueue.{
  MsgUnit, msg_quit, MessageQueue, register_message, called, post_message, thread_round,
}
use camannex.MessageQueue.Order.{post_message_last, thread_round_lem}
use camannex.Annex.Messages.{
  MsgAc, connect_network, receive_network, close_network, close_cooler, close_vacuum, msg_id,
  register_messages, Callback, called_back, network_connect, network_receive, cooler_receive,
  vacuum_receive,
}

module _ (pq : PriorityQueue MsgUnit) where
  open pq use {Q, order, max_msg}

  -- register_messages registers nothing: every call of it is refused, since the ids of MSG_AC are
  -- below MSG_USER.
  pub register_messages-refused :
      (s : MessageQueue MsgAc pq)
      → register_messages pq s ≡ (s, false ∷ false ∷ false ∷ false ∷ false ∷ [])
  unfolding register_messages msg_id register_message
  register_messages-refused s = refl

  -- The message that a callback posts.
  abbrev posted : Callback pq → MsgUnit
  posted (network_connect client ec) = record {
    id = msg_id connect_network;
    par1 = client;
    par2 = ec;
  }
  posted (network_receive client ec) = record {
    id = msg_id (if eqb_ℤ ec (pos 0) then receive_network else close_network);
    par1 = pos 0;
    par2 = pos 0;
  }
  posted (cooler_receive client ec) = record {
    id = msg_id close_cooler;
    par1 = client;
    par2 = pos 0;
  }
  posted (vacuum_receive client ec) = record {
    id = msg_id close_vacuum;
    par1 = client;
    par2 = pos 0;
  }

  called-posted : (c : Callback pq) (s : MessageQueue MsgAc pq) → called MsgAc pq (posted c) s ≡ []
  unfolding called msg_id
  called-posted (network_connect client ec) s = refl
  called-posted (network_receive client ec) s = ground arith
  called-posted (cooler_receive client ec) s = refl
  called-posted (vacuum_receive client ec) s = refl

  called_back-post :
      (c : Callback pq) (s : MessageQueue MsgAc pq)
      → called_back pq c s ≡ post_message MsgAc pq (posted c).id (posted c).par1 (posted c).par2 s
  unfolding called_back
  called_back-post (network_connect client ec) s = refl
  called_back-post (network_receive client ec) s = refl
  called_back-post (cooler_receive client ec) s = refl
  called_back-post (vacuum_receive client ec) s = refl

  -- Whether the callback reports the end of a connection attempt.
  abbrev pub is_connect : Callback pq → Bool
  is_connect (network_connect client ec) = true
  is_connect _ = false

  quit-posted : (c : Callback pq) → eqb_ℤ (posted c).id msg_quit ≡ is_connect c
  unfolding msg_id
  quit-posted (network_connect client ec) = refl
  quit-posted (network_receive client ec) = ground arith
  quit-posted (cooler_receive client ec) = refl
  quit-posted (vacuum_receive client ec) = refl

  -- Whatever slots are registered, a message that a callback posts to the empty queue is taken by
  -- the thread and calls no slot; and the end of a connection attempt, whose message has the id of
  -- MSG_QUIT, ends the thread, while after any other callback it goes on.
  pub callback_calls_nobody :
      (c : Callback pq) (q : Q) (s : MessageQueue MsgAc pq)
      → s.mq ≡ some q
      → order q ≡ []
      → 0 < max_msg q
      → (s1 s2 : MessageQueue MsgAc pq) × (msg : MsgUnit) × (called_back pq c s ≡ some s1)
        × (thread_round MsgAc pq s1 ≡ some (record { msg = msg; slots = [] }, s2))
        × (s2.running ≡ not (is_connect c))
        × (s2.funcs ≡ s.funcs)
  callback_calls_nobody c q s e o room =
      let msg = posted c in
      let (r, sent, o1) =
        post_message_last MsgAc pq msg.id msg.par1 msg.par2 q s e (rw o room) (rw o tt) in
      let s1 : MessageQueue MsgAc pq = record s { mq = some r } in
      let (t, taken, _) =
        thread_round_lem MsgAc pq 1 msg [] r s1 refl (o1 ∙ ap (λ xs. xs ++ (1, msg) ∷ []) o) in
      let s2 : MessageQueue MsgAc pq = record s1 {
        mq = some t;
        running = not (eqb_ℤ msg.id msg_quit);
      } in
      (
        s1,
        s2,
        msg,
        called_back-post c s ∙ sent,
        taken ∙ ap (λ slots. some (record { msg = msg; slots = slots }, s2)) (called-posted c s1),
        ap not (quit-posted c),
        refl,
      )
