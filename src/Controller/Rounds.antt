-- ===== src/Controller/Rounds.antt =====
-- A cycle of queries: thread_cycle fills the directives and sends the first, and each reply that
-- thread_respond handles sends the next, until the last one logs.
use camannex.Base.{
  ℕ, suc, ◌≡◌, refl, sym, ◌∙◌, List, [], ◌∷◌, ◌++◌, append_assoc, append-nil, Bytes, Bool, true,
  false, Option, none, some, ◌>>=◌, arith, length, replicate,
}
use camannex.Base.Int.{ℤ, pos}
use camannex.Buffer.{CircularBuffer}
use camannex.Serial
use camannex.Serial.{Serial}
use camannex.Controller.Virtual.{Directive, Virtual}
use camannex.Controller.Line.{
  Controller, Report, generate_all, first_send, remove_directive, cycle_round, respond_round,
}

-- The directives of all devices, in the devices' order.
abbrev pub directives_of : {D : Type 0} → Virtual D → List ℕ → List Directive
directives_of v [] = []
directives_of v (idd ∷ idds) = v.generate_directive idd ++ directives_of v idds

generate_all-directives_of :
    {D : Type 0} (v : Virtual D) (idds : List ℕ) (ds : List Directive)
    → generate_all v idds ds ≡ ds ++ directives_of v idds
unfolding generate_all
generate_all-directives_of v [] ds = sym (append-nil ds)
generate_all-directives_of v (idd ∷ idds) ds =
    generate_all-directives_of v idds (ds ++ v.generate_directive idd)
    ∙ append_assoc ds (v.generate_directive idd) (directives_of v idds)

module _ (cb : CircularBuffer) where
  -- The port after the directives were written to it, in order.
  abbrev pub sends : List Directive → Serial cb → Serial cb
  sends [] s = s
  sends (d ∷ ds) s = sends ds (Serial.write cb (some d.msg) (pos d.len) s).1

  is_open-start_write : (s : Serial cb) → (Serial.start_write cb s).is_open ≡ s.is_open
  unfolding Serial.start_write
  is_open-start_write s = ground arith

  is_open-write :
      (bs : Bytes) (len : ℤ) (s : Serial cb)
      → (Serial.write cb (some bs) len s).1.is_open ≡ s.is_open
  unfolding Serial.write
  is_open-write bs len s = ground arith

module _ (cb : CircularBuffer) {C D : Type 0} (v : Virtual D) where
  -- On an open port, a round of thread_cycle changes nothing while directives wait. With none
  -- waiting, it brings the records in line with the devices, queues the directives of all devices in
  -- order, and writes the first to the port; where there is no directive, since there is no device,
  -- it takes the front of an empty list.
  pub cycle_round_lem :
      (s : Serial cb) (c : Controller cb C D)
      → c.serial ≡ some s
      → s.is_open ≡ true
      → cycle_round cb v c ≡ elim c.drct [
        | [] ↦ elim (directives_of v c.all_dev) [
          | [] ↦ none
          | d ∷ ds ↦ some (record c {
            devices = v.check_data c.all_dev c.devices;
            drct = directives_of v c.all_dev;
            serial = some (sends cb (d ∷ []) s);
          })
        ]
        | d ∷ ds ↦ some c
      ]
  unfolding cycle_round first_send
  cycle_round_lem s c e open_port = ground (arith, generate_all-directives_of v c.all_dev [])

  -- One wake of thread_respond for each entry: the time, and whether the connection is open.
  unfoldable pub respond_all :
      List (ℕ × Bool) → Controller cb C D → Option (Controller cb C D × List (Option (Report D)))
  respond_all [] c = some (c, [])
  respond_all ((now, net) ∷ wakes) c =
      respond_round cb v now net c >>= λ r. respond_all wakes r.0 >>= λ t. some (t.0, r.1 ∷ t.1)

  -- A wake while more directives wait: the answered one goes, and the next is sent.
  respond_more :
      (now : ℕ) (net : Bool) (d e : Directive) (ds : List Directive) (s : Serial cb)
      (c : Controller cb C D)
      → c.serial ≡ some s
      → s.is_open ≡ true
      → c.drct ≡ d ∷ e ∷ ds
      → respond_round cb v now net c
        ≡ some (record c { tmlast = now; drct = e ∷ ds; serial = some (sends cb (e ∷ []) s) }, none)
  unfolding respond_round remove_directive first_send
  respond_more now net d e ds s c port open_port waits = ground arith

  respond_last :
      (now : ℕ) (net : Bool) (d : Directive) (c : Controller cb C D)
      → c.drct ≡ d ∷ []
      → respond_round cb v now net c
        ≡ some (
          record c { tmlast = now; drct = []; devices = (v.write_log c.devices).1 },
          some (record {
            logged = (v.write_log c.devices).0;
            uploads = elim c.db [ none ↦ false | some url ↦ true ];
            responds = elim c.tcp [ none ↦ false | some t ↦ net ];
          }),
        )
  unfolding respond_round remove_directive
  respond_last now net d c waits = ground arith

  -- What a whole cycle of replies leaves, from a state with the directives `d ∷ ds`.
  pub record Answered (ds : List Directive) (s : Serial cb) (c : Controller cb C D)
      (out : Option (Controller cb C D × List (Option (Report D)))) : Type 0 where
    pub final : Controller cb C D
    pub rep : Report D
    pub returned : out ≡ some (final, replicate (length ds) none ++ some rep ∷ [])
    pub queue : final.drct ≡ []
    pub port : final.serial ≡ some (sends cb ds s)
    pub logs : (rep.logged, final.devices) ≡ v.write_log c.devices

  -- From an open port with the first of the directives sent: as many wakes as there are directives
  -- write the others to the port in order, one at each wake, and only the last one logs. Nothing is
  -- undefined on the way, and no directive is left.
  pub respond_all-Answered :
      (d : Directive) (ds : List Directive) (wakes : List (ℕ × Bool)) (s : Serial cb)
      (c : Controller cb C D)
      → c.serial ≡ some s
      → s.is_open ≡ true
      → c.drct ≡ d ∷ ds
      → length wakes ≡ suc (length ds)
      → Answered ds s c (respond_all wakes c)
  unfolding respond_all
  respond_all-Answered d ds [] s c port open_port waits n = absurd (omega arith)
  respond_all-Answered d [] ((now, net) ∷ []) s c port open_port waits n =
      let e = respond_last now net d c waits in
      record {
        final = record c { tmlast = now; drct = []; devices = (v.write_log c.devices).1 };
        rep = record {
          logged = (v.write_log c.devices).0;
          uploads = elim c.db [ none ↦ false | some url ↦ true ];
          responds = elim c.tcp [ none ↦ false | some t ↦ net ];
        };
        returned = rw e refl;
        queue = refl;
        port = port;
        logs = refl;
      }
  respond_all-Answered d [] (w ∷ u ∷ ws) s c port open_port waits n = absurd (omega arith)
  respond_all-Answered d (e ∷ ds) ((now, net) ∷ wakes) s c port open_port waits n =
      let s1 : Serial cb = sends cb (e ∷ []) s in
      let c1 : Controller cb C D = record c { tmlast = now; drct = e ∷ ds; serial = some s1 } in
      let rest =
        respond_all-Answered e ds wakes s1 c1 refl
          (is_open-write cb e.msg (pos e.len) s ∙ open_port) refl (omega arith) in
      record {
        final = rest.final;
        rep = rest.rep;
        returned = rw (respond_more now net d e ds s c port open_port waits, rest.returned) refl;
        queue = rest.queue;
        port = rest.port;
        logs = rest.logs;
      }

  -- A wake with no directive waiting takes from an empty list.
  pub respond_round-unasked :
      (now : ℕ) (net : Bool) (c : Controller cb C D)
      → c.drct ≡ []
      → respond_round cb v now net c ≡ none
  unfolding respond_round remove_directive
  respond_round-unasked now net c e = ground arith
