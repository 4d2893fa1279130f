-- ===== src/Controller/Line.antt =====
-- The state of ControllerBase and its functions: the directives, the threads and the callbacks of the
-- port. A step that does what C++ leaves undefined, taking from an empty list, is `none`.
use camannex.Base.{
  ℕ, ◌-◌, List, [], ◌∷◌, ◌++◌, Bytes, Bool, true, false, not, Option, none, some, if◌then◌else◌,
  ltb, ◌==◌, length, drop, ◌>>=◌,
}
use camannex.Base.Int.{ℤ, pos, negsuc, pos_part, ◌+ℤ◌, ◌-ℤ◌, leb_ℤ, ltb_ℤ, eqb_ℤ}
use camannex.Buffer.{CircularBuffer}
use camannex.Serial
use camannex.Serial.{Serial, ErrorCode}
use camannex.Controller.Link.{Link}
use camannex.Controller.Virtual.{Directive, Virtual}

-- `serial` is empty before Start; `bufrcv` is the store of 512 bytes that frames are read into;
-- `tmlast` counts seconds. `C` is what a connection is, `D` what a device keeps.
pub record Controller (cb : CircularBuffer) (C D : Type 0) : Type 0 where
  pub link : Link C
  pub open link use *
  pub serial : Option (Serial cb)
  pub bufrcv : Bytes
  pub drct : List Directive
  pub cbrslt : Bool
  pub tmlast : ℕ
  pub devices : List D

-- What the last round of a cycle does: the records it logs, and whether it uploads and responds.
pub record Report (D : Type 0) : Type 0 where
  pub logged : List D
  pub uploads : Bool
  pub responds : Bool

module _ {cb : CircularBuffer} {C D : Type 0} where
  -- ControllerBase::Start, with the result `ec` of opening the port and the two new buffers of the
  -- port. The three threads that it starts are the rounds below.
  unfoldable pub start :
      Bytes → ErrorCode → cb.Buf → cb.Buf → Controller cb C D → Controller cb C D × ℤ
  start [] ec rcv snd c = (c, negsuc 0)
  start (x ∷ portname) ec rcv snd c =
      let made = Serial.register_write cb (Serial.register_read cb (Serial.init cb rcv snd)) in
      let (s, opened) = Serial.open_port cb ec made in
      if not opened
      then (record c { serial = some s }, negsuc 1)
      else (record c { serial = some s; link = record c.link { portname = x ∷ portname } }, pos 0)

  -- ControllerBase::append_directive
  unfoldable pub append_directive : Directive → Controller cb C D → Controller cb C D
  append_directive d c = record c { drct = c.drct ++ d ∷ [] }

  -- ControllerBase::remove_directive
  unfoldable pub remove_directive : Controller cb C D → Option (Controller cb C D)
  remove_directive c = elim c.drct [ [] ↦ none | d ∷ ds ↦ some (record c { drct = ds }) ]

  -- ControllerBase::first_send. A port that is closed is logged.
  unfoldable pub first_send : Controller cb C D → Option (Controller cb C D)
  first_send c = elim c.serial [
    | none ↦ some c
    | some s ↦
        let sent : Option (Controller cb C D) = elim c.drct [
          | [] ↦ none
          | d ∷ ds ↦
              some (record c { serial = some (Serial.write cb (some d.msg) (pos d.len) s).1 })
        ] in
        if s.is_open then sent else some c
  ]

  -- The callback `cbrslt_` with its code, if a slot is connected.
  unfoldable pub report : ℤ → Controller cb C D → Option ℤ
  report code c = if c.cbrslt then some code else none

  -- ControllerBase::RegisterResult
  unfoldable pub register_result : Controller cb C D → Controller cb C D
  register_result c = record c { cbrslt = true }

  -- ControllerBase::serial_write: the code of the callback that it makes.
  unfoldable pub serial_write : Bool → Controller cb C D → Option ℤ
  unfolding report
  serial_write failed c = if failed then report (pos 2) c else none

  -- What ControllerBase::thread_heartbeat does before its loop, at time `now`.
  unfoldable pub begin_heartbeat : ℕ → Controller cb C D → Controller cb C D
  begin_heartbeat now c = record c { tmlast = now }

  -- One round of its loop at time `now`: whether the loop goes on, and the
  -- code of the callback at its end.
  unfoldable pub heartbeat_round : ℕ → Controller cb C D → Bool × Option ℤ
  unfolding report
  heartbeat_round now c =
      if ltb (now - c.tmlast) 30 then (true, none) else (false, report (pos 3) c)

-- The loop of thread_cycle over the devices.
unfoldable pub generate_all : {D : Type 0} → Virtual D → List ℕ → List Directive → List Directive
generate_all v [] ds = ds
generate_all v (idd ∷ idds) ds = generate_all v idds (ds ++ v.generate_directive idd)

module _ (cb : CircularBuffer) {C D : Type 0} (v : Virtual D) where
  -- ControllerBase::Write. `text` is what boost::format makes of an integer or a double, and
  -- empty where no value is given. `none`: what encode_data writes is longer than the 30 bytes of
  -- Directive::msg.
  unfoldable pub write : ℕ → ℕ → Bytes → Controller cb C D → Option (Controller cb C D)
  unfolding append_directive
  write idd idf text c =
      let (n, out) = v.encode_data idd idf text in
      if ltb 30 (length out)
      then none
      else some (append_directive (record { idf = idf; len = n; msg = out }) c)

  -- One round of ControllerBase::thread_cycle.
  unfoldable pub cycle_round : Controller cb C D → Option (Controller cb C D)
  cycle_round c =
      if length c.drct == 0
      then first_send (record c {
        devices = v.check_data c.all_dev c.devices;
        drct = generate_all v c.all_dev c.drct;
      })
      else some c

  -- One round of ControllerBase::thread_respond at time `now`, after it was woken. `net_open` tells
  -- whether the connection is open.
  unfoldable pub respond_round :
      ℕ → Bool → Controller cb C D → Option (Controller cb C D × Option (Report D))
  unfolding remove_directive
  respond_round now net_open c = remove_directive (record c { tmlast = now }) >>= λ c1.
      let sent : Option (Controller cb C D × Option (Report D)) =
        first_send c1 >>= λ c2. some (c2, none) in
      let (logged, left) = v.write_log c1.devices in
      let done : Report D = record {
        logged = logged;
        uploads = elim c1.db [ none ↦ false | some url ↦ true ];
        responds = elim c1.tcp [ none ↦ false | some t ↦ net_open ];
      } in
      if not (length c1.drct == 0) then sent else some (record c1 { devices = left }, some done)

  -- What serial_read does once the tail was found: the frame goes to `bufrcv` and is decoded. The
  -- result tells whether thread_respond is woken. `none`: the frame is longer than the store.
  unfoldable pub take_frame :
      ℤ → ℤ → Serial cb → Controller cb C D → Option (Controller cb C D × Bool)
  take_frame ihead itail s c =
      let len = itail -ℤ ihead +ℤ pos (length v.tail) in
      let (out, s') = Serial.read cb len ihead s in
      let store = out ++ drop (length out) c.bufrcv in
      if ltb 512 (length out)
      then none
      else v.decode_data (pos_part len) store c.drct c.devices >>= λ r.
          some (record c { serial = some s'; bufrcv = store; devices = r.1 }, eqb_ℤ r.0 (pos 0))

  -- The part of ControllerBase::serial_read that handles what arrived without error.
  unfoldable pub handle_frame : Serial cb → Controller cb C D → Option (Controller cb C D × Bool)
  unfolding take_frame
  handle_frame s c =
      let nhead = length v.head in
      let ihead =
        if not (nhead == 0) then Serial.lookup cb (some v.head) (pos nhead) (pos 0) s else pos 0 in
      let itail =
        if leb_ℤ (pos 0) ihead
        then Serial.lookup cb (some v.tail) (pos (length v.tail)) ihead s
        else pos 0 in
      if ltb_ℤ ihead itail then take_frame ihead itail s c else some (c, false)

  -- ControllerBase::serial_read: the new state, whether thread_respond is woken, and the code of the
  -- callback.
  unfoldable pub serial_read :
      Bool → Serial cb → Controller cb C D → Option (Controller cb C D × Bool × Option ℤ)
  unfolding handle_frame report
  serial_read failed s c =
      if failed
      then some (c, false, report (pos 1) c)
      else handle_frame s c >>= λ r. some (r.0, r.1, none)
