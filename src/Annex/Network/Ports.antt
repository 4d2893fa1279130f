-- ===== src/Annex/Network/Ports.antt =====
-- Which ports have a controller, after connect_cooler and after the handlers that erase one.
use camannex.Base.{
  ℕ, ◌+◌, ◌≡◌, ◌≢◌, ◌⊎◌, refl, ap, sym, subst, ◌∙◌, List, [], ◌∷◌, ◌++◌, append_assoc, append-nil,
  Bytes, Bool, true, not, Option, none, some, if◌then◌else◌, All, arith, Bool-cases, Option-cases,
  inl, inr,
}
use camannex.Controller.Link.{Link, add_device, add_devices, set_database, couple_network}
use camannex.Config.{Annex}
use camannex.Annex.Network.{
  Port, Network, new_link, start, connect_cooler_port, served, connect_coolers, erase,
  on_close_cooler,
}

module _ {C : Type 0} where
  portname-add_devices : (ds : List ℕ) (l : Link C) → (add_devices ds l).portname ≡ l.portname
  unfolding add_devices add_device
  portname-add_devices [] l = refl
  portname-add_devices (d ∷ ds) l = portname-add_devices ds (add_device d l) ∙ ground arith

  portname-set_database : (url : Bytes) (l : Link C) → (set_database url l).portname ≡ l.portname
  unfolding set_database
  portname-set_database [] l = refl
  portname-set_database (c ∷ url) l = refl

  tcp-add_devices : (ds : List ℕ) (l : Link C) → (add_devices ds l).tcp ≡ l.tcp
  unfolding add_devices add_device
  tcp-add_devices [] l = refl
  tcp-add_devices (d ∷ ds) l = tcp-add_devices ds (add_device d l) ∙ ground arith

  tcp-set_database : (url : Bytes) (l : Link C) → (set_database url l).tcp ≡ l.tcp
  unfolding set_database
  tcp-set_database [] l = refl
  tcp-set_database (c ∷ url) l = refl

  tcp-start :
      (opens : Bytes → Bool) (name : Bytes) (one : Link C)
      → start opens name ≡ some one
      → one.tcp ≡ none
  unfolding start new_link
  tcp-start opens [] one e = ground arith
  tcp-start opens (c ∷ cs) one e = ground arith

  -- A new controller is coupled with the session that is there.
  tcp-couple_network :
      (session : Option C) (grpid : Bytes) (l : Link C)
      → l.tcp ≡ none
      → (couple_network session grpid l).tcp ≡ session
  unfolding couple_network
  tcp-couple_network session grpid l e = rw e refl

  -- A controller is found where it stands in front of others, and at the end.
  served-append :
      (iequals : Bytes → Bytes → Bool) (name : Bytes) (ps qs : List (Port C))
      → served iequals name ps ≡ true
      → served iequals name (ps ++ qs) ≡ true
  unfolding served
  served-append iequals name [] qs h = ground arith
  served-append iequals name (p ∷ ps) qs h = ground (arith, served-append iequals name ps qs)

  served_last :
      (iequals : Bytes → Bytes → Bool) (name : Bytes) (ps : List (Port C)) (p : Port C)
      → iequals name p.portname ≡ true
      → served iequals name (ps ++ p ∷ []) ≡ true
  unfolding served
  served_last iequals name [] p h = rw h
  served_last iequals name (q ∷ ps) p h = ground (arith, served_last iequals name ps p h)

  portname-start :
      (opens : Bytes → Bool) (name : Bytes) (one : Link C)
      → start opens name ≡ some one
      → one.portname ≡ name
  unfolding start
  portname-start opens [] one e = ground arith
  portname-start opens (c ∷ cs) one e = ground arith

  -- The state with one controller more of this name, which has the session of AnnexControl.
  abbrev Adds : (Bytes → Bytes → Bool) → Bytes → Network C → Network C → Type 0
  Adds iequals name s s' =
      (served iequals name s'.cctl ≡ true)
      × ((p : Port C) × (s'.cctl ≡ s.cctl ++ p ∷ []) × (p.tcp ≡ s.tcp) × (s'.tcp ≡ s.tcp))

  connect_cooler_port-Adds :
      (iequals : Bytes → Bytes → Bool) (opens : Bytes → Bool) (a : Annex) (s : Network C)
      → ((n : Bytes) → iequals n n ≡ true)
      → (connect_cooler_port opens a s ≡ none)
        ⊎ ((s' : Network C) × ((connect_cooler_port opens a s ≡ some s')
              × Adds iequals a.port_name s s'))
  unfolding connect_cooler_port couple_network
  connect_cooler_port-Adds iequals opens a s same =
      elim (Option-cases (start {C = C} opens a.port_name)) [
        | inl closed ↦ inl (rw closed)
        | inr (one, opened) ↦
            let l : Link C =
              add_devices a.idd (set_database s.url_db (couple_network s.tcp s.groupid one)) in
            let p : Port C = record { key = s.next; link = l } in
            let named : l.portname ≡ a.port_name =
              (portname-add_devices a.idd
                  (set_database s.url_db (couple_network s.tcp s.groupid one))
                ∙ portname-set_database s.url_db (couple_network s.tcp s.groupid one))
              ∙ portname-start opens a.port_name one opened in
            let session : l.tcp ≡ s.tcp =
              (tcp-add_devices a.idd (set_database s.url_db (couple_network s.tcp s.groupid one))
                ∙ tcp-set_database s.url_db (couple_network s.tcp s.groupid one))
              ∙ tcp-couple_network s.tcp s.groupid one (tcp-start opens a.port_name one opened) in
            inr (
              record s { cctl = s.cctl ++ p ∷ []; next = s.next + 1 },
              (
                rw opened,
                (
                  served_last iequals a.port_name s.cctl p (rw named (same a.port_name)),
                  (p, refl, session, refl),
                ),
              ),
            )
      ]

  -- Each port of the configuration has a controller of its name, and the controllers that were
  -- there are still there, in front of the new ones, each of which has the session of the first state.
  abbrev pub Covers : (Bytes → Bytes → Bool) → List Annex → Network C → Network C → Type 0
  Covers iequals ds s s' =
      All (λ a. served iequals a.port_name s'.cctl ≡ true) ds
      × ((more : List (Port C)) × (s'.cctl ≡ s.cctl ++ more) × All (λ p. p.tcp ≡ s.tcp) more)

  -- Where connect_cooler returns true, each port of the configuration has a controller of its name,
  -- as long as boost::iequals holds of equal names; and the controllers that were there are still
  -- there, in front of the new ones, each of which has the session that AnnexControl had.
  pub connect_coolers-Covers :
      (iequals : Bytes → Bytes → Bool) (opens : Bytes → Bool) (init : Bool) (ds : List Annex)
      (s : Network C)
      → ((n : Bytes) → iequals n n ≡ true)
      → (connect_coolers iequals opens init ds s).1 ≡ true
      → Covers iequals ds s (connect_coolers iequals opens init ds s).0
  unfolding connect_coolers
  connect_coolers-Covers iequals opens init [] s same h = (tt, ([], sym (append-nil s.cctl), tt))
  connect_coolers-Covers iequals opens init (a ∷ rest) s same h =
      let there = served iequals a.port_name s.cctl in
      let need : Bool = if not init then not there else init in
      let result = connect_coolers iequals opens init (a ∷ rest) s in
      let done : Network C × Bool → Type 0 = λ r. Covers iequals (a ∷ rest) s r.0 in
      elim (Bool-cases need) [
        | inr skip ↦
            let found : there ≡ true = ground arith in
            let step : result ≡ connect_coolers iequals opens init rest s = rw skip in
            let (ports, (more, kept, coupled)) =
              connect_coolers-Covers iequals opens init rest s same (rw step at h) in
            subst done (sym step) (
              (rw kept (served-append iequals a.port_name s.cctl more found), ports),
              (more, kept, coupled),
            )
        | inl wanted ↦ elim (connect_cooler_port-Adds iequals opens a s same) [
          | inl closed ↦ absurd (ground arith)
          | inr (s1, (connected, (new, (p, added, session, same_session)))) ↦
              let step : result ≡ connect_coolers iequals opens init rest s1 =
                rw (wanted, connected) in
              let (ports, (more, kept, coupled)) =
                connect_coolers-Covers iequals opens init rest s1 same (rw step at h) in
              subst done (sym step) (
                (rw kept (served-append iequals a.port_name s1.cctl more new), ports),
                (
                  p ∷ more,
                  kept ∙ (ap (λ ps. ps ++ more) added ∙ append_assoc s.cctl (p ∷ []) more),
                  (session, subst (λ t. All (λ (q : Port C). q.tcp ≡ t) more) same_session coupled),
                ),
              )
        ]
      ]

  erase_behind :
      (before after : List (Port C)) (p : Port C)
      → All (λ q. q.key ≢ p.key) before
      → erase p.key (before ++ p ∷ after) ≡ some (before ++ after)
  unfolding erase
  erase_behind [] after p h = ground arith
  erase_behind (q ∷ before) after p (h, hs) = ground (arith, erase_behind before after p hs)

  erase_unknown :
      (client : ℕ) (ps : List (Port C)) → All (λ q. q.key ≢ client) ps → erase client ps ≡ none
  unfolding erase
  erase_unknown client [] h = refl
  erase_unknown client (q ∷ ps) (h, hs) = ground (arith, erase_unknown client ps hs)

  -- on_close_cooler erases the first controller whose address is the client's, at whatever place it
  -- stands, and keeps the others in order.
  pub on_close_cooler-erases :
      (before after : List (Port C)) (p : Port C) (s : Network C)
      → s.cctl ≡ before ++ p ∷ after
      → All (λ q. q.key ≢ p.key) before
      → on_close_cooler p.key s ≡ some (record s { cctl = before ++ after })
  unfolding on_close_cooler
  on_close_cooler-erases before after p s e h = rw (e, erase_behind before after p h)

  -- For a client that is none of the controllers, on_close_cooler erases behind the last one, which
  -- C++ leaves undefined.
  pub on_close_cooler-unknown :
      (client : ℕ) (s : Network C)
      → All (λ q. q.key ≢ client) s.cctl
      → on_close_cooler client s ≡ none
  unfolding on_close_cooler
  on_close_cooler-unknown client s h = rw (erase_unknown client s.cctl h)
