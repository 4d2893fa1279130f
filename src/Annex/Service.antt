-- ===== src/Annex/Service.antt =====
-- AnnexControl::StartService and StopService, which put the message queue and the network together.
use camannex.Base.{
  ℕ, ◌≡◌, sym, subst, Bytes, Bool, true, false, not, Option, none, some, if◌then◌else◌, List, ◌>>=◌,
  arith, Bool-cases, inl, inr, refl,
}
use camannex.MessageQueue.Queue.{PriorityQueue}
use camannex.MessageQueue.{MsgUnit, MessageQueue, Call}
use camannex.MessageQueue
use camannex.Annex.Messages.{MsgAc, register_messages}
use camannex.Annex.Network.{Network, connect_server, connect_coolers}
use camannex.Annex.Network.Ports.{Covers, connect_coolers-Covers}

module _ (C : Type 0) (pq : PriorityQueue MsgUnit) where
  -- The two parts of an AnnexControl.
  pub record Service : Type 0 where
    pub queue : MessageQueue MsgAc pq
    pub network : Network C

  -- AnnexControl::StartService. `created` is the result of creating the queue, `session` the client
  -- that is made and `connects` the result of connecting it.
  unfoldable pub start_service :
      Option pq.Q → C → Bool → (Bytes → Bytes → Bool) → (Bytes → Bool) → Service → Service × Bool
  start_service created session connects iequals opens s =
      let q0 = (register_messages pq s.queue).0 in
      let (q1, started) = MessageQueue.start MsgAc pq created q0 in
      let (n1, served) = connect_server session false connects s.network in
      let (n2, ports) = connect_coolers iequals opens true n1.cooler n1 in
      if not started
      then (record s { queue = q1 }, false)
      else if not served
      then (record { queue = q1; network = n1 }, false)
      else (record { queue = q1; network = n2 }, ports)

  -- AnnexControl::StopService, with what the message thread still calls.
  unfoldable pub stop_service : ℕ → Service → Option (List (Call MsgAc pq) × Service)
  stop_service fuel s =
      let network = record s.network { monitor = false } in
      MessageQueue.stop MsgAc pq fuel s.queue >>= λ r.
      some (r.0, record { queue = r.1; network = network })

  tcp-connect_server :
      (session : C) (connects : Bool) (n : Network C)
      → (connect_server session false connects n).0.tcp
        ≡ (if n.b_server then some session else n.tcp)
  unfolding connect_server
  tcp-connect_server session connects n = elim (Bool-cases n.b_server) [
    | inl on ↦ rw on refl
    | inr off ↦ rw off refl
  ]

  thrdmsg-start :
      (created : Option pq.Q) (q : MessageQueue MsgAc pq)
      → (MessageQueue.start MsgAc pq created q).1 ≡ true
      → (MessageQueue.start MsgAc pq created q).0.thrdmsg ≡ true
  unfolding MessageQueue.start
  thrdmsg-start none q e = ground arith
  thrdmsg-start (some r) q e = ground arith

  -- Where StartService returns true, the message thread is there; each configured cooler port has a
  -- controller of its name, as long as boost::iequals holds of equal names; and the controllers that it
  -- made have the session that it made before them, if the server is in use, and else the one that was
  -- there.
  pub start_service-Covers :
      (created : Option pq.Q) (session : C) (connects : Bool) (iequals : Bytes → Bytes → Bool)
      (opens : Bytes → Bool) (s : Service)
      → ((n : Bytes) → iequals n n ≡ true)
      → (start_service created session connects iequals opens s).1 ≡ true
      → let s' = (start_service created session connects iequals opens s).0 in
        let n1 = (connect_server session false connects s.network).0 in
        (s'.queue.thrdmsg ≡ true)
        × Covers iequals n1.cooler n1 s'.network
        × (n1.tcp ≡ (if s.network.b_server then some session else s.network.tcp))
  unfolding start_service
  start_service-Covers created session connects iequals opens s same h =
      let q0 = (register_messages pq s.queue).0 in
      let queued = MessageQueue.start MsgAc pq created q0 in
      let server = connect_server session false connects s.network in
      let n1 = server.0 in
      let ports = connect_coolers iequals opens true n1.cooler n1 in
      elim (Bool-cases queued.1) [
        | inr failed ↦ absurd (ground arith)
        | inl started ↦ elim (Bool-cases server.1) [
          | inr failed ↦ absurd (ground arith)
          | inl served ↦
              let step : start_service created session connects iequals opens s
                  ≡ (record { queue = queued.0; network = ports.0 }, ports.1) =
                rw (started, served) in
              subst
                (λ (r : Service × Bool).
                  (r.0.queue.thrdmsg ≡ true)
                  × Covers iequals n1.cooler n1 r.0.network
                  × (n1.tcp ≡ (if s.network.b_server then some session else s.network.tcp)))
                (sym step)
                (
                  thrdmsg-start created q0 started,
                  connect_coolers-Covers iequals opens true n1.cooler n1 same (rw step at h),
                  tcp-connect_server session connects s.network,
                )
        ]
      ]
