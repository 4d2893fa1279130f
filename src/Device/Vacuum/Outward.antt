-- ===== src/Device/Vacuum/Outward.antt =====
-- VacuumCtl::network_respond of src/VacuumCtl.cpp. VacuumCtl::upload_database is empty.
use camannex.Base.{
  Option, Option-cases, inl, inr, ◌>>=◌, ◌∙◌, All, ℕ, ◌+◌, ◌/◌, ◌≤◌, ◌≡◌, refl, List, [], ◌∷◌,
  Bytes, true, some, length, map, rest_of, get_or,
}
use camannex.Base.Text.{decimal3}
use camannex.Buffer.{CircularBuffer}
use camannex.Tcp.{Client}
use camannex.Protocol
use camannex.Protocol.Boost.{Strings}
use camannex.Protocol.{Output, compact_vacuum, vacuum_text, new_vacuum, output_compacted}
use camannex.Protocol.Slots.{Stores}
use camannex.Device.Float.{Float}
use camannex.Device.Report.{hand_over, Short, Appends, report_all, sent_lines, report_all-Appends}
use camannex.Device.Vacuum.{VacuumData}

-- `narrow` turns a `double` into a `float`.
module _ (fl : Float) (st : Strings) (narrow : fl.Double → st.Single) where
  open fl use {Double}

  -- What network_respond fills in for one record.
  unfoldable pub fill : Bytes → VacuumData Double → Protocol.Vacuum st
  unfolding decimal3 new_vacuum
  fill grpid r = record (new_vacuum st) {
    gid = grpid;
    uid = decimal3 (r.idd / 10);
    cid = decimal3 r.idd;
    voltage = narrow r.vol;
    current = narrow r.cur;
    pressure = r.pres;
  }

  module _ (cb : CircularBuffer) where
    open cb use {items, capacity}

    -- VacuumCtl::network_respond. `sent` has what a socket without buffer takes of each line.
    unfoldable pub network_respond :
        Bytes → List (VacuumData Double) → List ℕ → Output × Client cb → Option (Output × Client cb)
    unfolding fill compact_vacuum hand_over
    network_respond grpid [] sent (out, s) = some (out, s)
    network_respond grpid (r ∷ rs) sent (out, s) =
        compact_vacuum st (some (fill grpid r)) out >>= λ l.
        network_respond grpid rs (rest_of sent) (l.1, hand_over cb l.0 l.1 (get_or sent 0 0) s)

    -- What the server receives for the records.
    abbrev pub lines : Bytes → List (VacuumData Double) → Bytes
    lines grpid rs = sent_lines cb st (map (λ r. vacuum_text st (fill grpid r)) rs)

    network_respond-report_all :
        (grpid : Bytes) (rs : List (VacuumData Double)) (sent : List ℕ) (out : Output)
        (s : Client cb)
        → network_respond grpid rs sent (out, s)
          ≡ report_all cb st (map (λ r. vacuum_text st (fill grpid r)) rs) sent (out, s)
    unfolding network_respond report_all compact_vacuum
    network_respond-report_all grpid [] sent out s = refl
    network_respond-report_all grpid (r ∷ rs) sent out s =
        elim (Option-cases (output_compacted st (vacuum_text st (fill grpid r)) out)) [
          | inl none_fits ↦ rw none_fits refl
          | inr (l, e) ↦ rw e (network_respond-report_all grpid rs (rest_of sent) _ _)
        ]

    -- With a line of at most 1024 bytes for each record, its zero included, and room for all lines in
    -- the buffer of a client that uses it, network_respond writes within its stores and appends the
    -- lines, in the order of the records, to what waits to be sent.
    pub network_respond-Appends_gauges :
        (grpid : Bytes) (rs : List (VacuumData Double)) (sent : List ℕ) (out : Output)
        (s : Client cb)
        → All (Short cb st) (map (λ r. vacuum_text st (fill grpid r)) rs)
        → Stores st out
        → s.usebuf ≡ true
        → length (items s.crcsnd) + length (lines grpid rs) ≤ capacity s.crcsnd
        → (o : Output × Client cb) × (network_respond grpid rs sent (out, s) ≡ some o)
          × Appends cb st (lines grpid rs) s o.1
    network_respond-Appends_gauges grpid rs sent out s short v buf room =
        let ts = map (λ r. vacuum_text st (fill grpid r)) rs in
        let (o, e, a) = report_all-Appends cb st ts sent out s short v buf room in
        (o, network_respond-report_all grpid rs sent out s ∙ e, a)
