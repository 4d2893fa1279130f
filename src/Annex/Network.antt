-- ===== src/Annex/Network.antt =====
-- AnnexControl's connections: the server, the controllers of the serial ports, and the handlers of
-- the messages about them. The environment tells whether a port can be opened.
pub mod Ports
use camannex.Base.{
  ℕ, ◌+◌, List, [], ◌∷◌, ◌++◌, Bytes, Bool, true, false, not, ◌&&◌, Option, none, some,
  if◌then◌else◌, ◌==◌, map, length, ◌>>=◌,
}
use camannex.Config.{Annex}
use camannex.Controller.Link.{Link, couple_network, decouple_network, set_database, add_devices}

-- A controller that was made: `key` is the address of the object.
pub record Port (C : Type 0) : Type 0 where
  pub key : ℕ
  pub link : Link C
  pub open link use *

-- The members of AnnexControl. `monitor` tells whether thrdnetwork_ is set, `next` is the address of
-- the next object.
pub record Network (C : Type 0) : Type 0 where
  pub b_server : Bool
  pub groupid : Bytes
  pub url_db : Bytes
  pub cooler : List Annex
  pub vacuum : List Annex
  pub cctl : List (Port C)
  pub vctl : List (Port C)
  pub tcp : Option C
  pub monitor : Bool
  pub next : ℕ

module _ {C : Type 0} where
  unfoldable pub new_link : Link C
  new_link = record { portname = []; grpid = []; all_dev = []; tcp = none; db = none }

  -- ControllerBase::Start on a new controller: the link that it leaves, where it returns 0.
  unfoldable pub start : (Bytes → Bool) → Bytes → Option (Link C)
  unfolding new_link
  start opens [] = none
  start opens (c ∷ portname) =
      if opens (c ∷ portname) then some (record new_link { portname = c ∷ portname }) else none

  -- AnnexControl::connect_serial for a cooler and for a vacuum gauge. `none`: it returns false.
  unfoldable pub connect_cooler_port : (Bytes → Bool) → Annex → Network C → Option (Network C)
  unfolding start
  connect_cooler_port opens device s = start opens device.port_name >>= λ one.
      let coupled = couple_network s.tcp s.groupid one in
      let linked = add_devices device.idd (set_database s.url_db coupled) in
      some (record s {
        cctl = s.cctl ++ record { key = s.next; link = linked } ∷ [];
        next = s.next + 1;
      })

  unfoldable pub connect_vacuum_port : (Bytes → Bool) → Annex → Network C → Option (Network C)
  unfolding start
  connect_vacuum_port opens device s = start opens device.port_name >>= λ one.
      let linked = add_devices device.idd (couple_network s.tcp s.groupid one) in
      some (record s {
        vctl = s.vctl ++ record { key = s.next; link = linked } ∷ [];
        next = s.next + 1;
      })

  -- The inner loop of connect_cooler and connect_vacuum: whether it ends before the end. `iequals`
  -- is boost::iequals.
  unfoldable pub served : (Bytes → Bytes → Bool) → Bytes → List (Port C) → Bool
  served iequals portname [] = false
  served iequals portname (p ∷ ps) =
      let later = served iequals portname ps in if iequals portname p.portname then true else later

  -- AnnexControl::connect_cooler, over the ports that are left; a port that cannot be connected
  -- ends it. The state holds what was connected, and the result tells what it returns.
  unfoldable pub connect_coolers :
      (Bytes → Bytes → Bool) → (Bytes → Bool) → Bool → List Annex → Network C → Network C × Bool
  unfolding connect_cooler_port served
  connect_coolers iequals opens init [] s = (s, true)
  connect_coolers iequals opens init (a ∷ rest) s =
      let skipped = connect_coolers iequals opens init rest s in
      let connected : Network C × Bool = elim (connect_cooler_port opens a s) [
        | none ↦ (s, false)
        | some s' ↦ connect_coolers iequals opens init rest s'
      ] in
      let need = if not init then not (served iequals a.port_name s.cctl) else init in
      if need then connected else skipped

  unfoldable pub connect_vacuums :
      (Bytes → Bytes → Bool) → (Bytes → Bool) → Bool → List Annex → Network C → Network C × Bool
  unfolding connect_vacuum_port served
  connect_vacuums iequals opens init [] s = (s, true)
  connect_vacuums iequals opens init (a ∷ rest) s =
      let skipped = connect_vacuums iequals opens init rest s in
      let connected : Network C × Bool = elim (connect_vacuum_port opens a s) [
        | none ↦ (s, false)
        | some s' ↦ connect_vacuums iequals opens init rest s'
      ] in
      let need = if not init then not (served iequals a.port_name s.vctl) else init in
      if need then connected else skipped

  -- AnnexControl::connect_server: `session` is the client that it makes, `connects` the result of a
  -- connection that it waits for.
  unfoldable pub connect_server : C → Bool → Bool → Network C → Network C × Bool
  connect_server session async connects s =
      if not s.b_server
      then (s, true)
      else (record s { tcp = some session }, if not async then connects else true)

  coupled_all : Network C → List (Port C) → List (Port C)
  coupled_all s = map {A = Port C} (λ p. record p { link = couple_network s.tcp s.groupid p.link })

  decoupled_all : List (Port C) → List (Port C)
  decoupled_all = map {A = Port C} (λ p. record p { link = decouple_network p.link })

  -- AnnexControl::on_connect_network. `ok` is `!ec`.
  unfoldable pub on_connect_network : Bool → Network C → Network C
  unfolding coupled_all
  on_connect_network ok s =
      if ok
      then record s { monitor = false; cctl = coupled_all s s.cctl; vctl = coupled_all s s.vctl }
      else record s { tcp = none }

  -- AnnexControl::on_close_network
  unfoldable pub on_close_network : Network C → Network C
  unfolding decoupled_all
  on_close_network s = record s {
    cctl = decoupled_all s.cctl;
    vctl = decoupled_all s.vctl;
    tcp = none;
    monitor = true;
  }

  -- One round of AnnexControl::thread_network. `shared` tells whether something else holds the
  -- client as well, so that `unique` is false.
  unfoldable pub network_round : C → Bool → Network C → Network C
  unfolding connect_server
  network_round session shared s =
      let again = (connect_server session true true s).0 in
      elim s.tcp [ none ↦ again | some t ↦ if shared then again else s ]

  -- `cctl_.erase(it)` behind the loop that looks for the object. `none`: it erases at the end.
  erase : ℕ → List (Port C) → Option (List (Port C))
  erase client [] = none
  erase client (p ∷ ps) =
      let later : Option (List (Port C)) = erase client ps >>= λ qs. some (p ∷ qs) in
      if not (p.key == client) then later else some ps

  -- AnnexControl::on_close_cooler and on_close_vacuum
  unfoldable pub on_close_cooler : ℕ → Network C → Option (Network C)
  unfolding erase
  on_close_cooler client s = erase client s.cctl >>= λ ps. some (record s { cctl = ps })

  unfoldable pub on_close_vacuum : ℕ → Network C → Option (Network C)
  unfolding erase
  on_close_vacuum client s = erase client s.vctl >>= λ ps. some (record s { vctl = ps })
