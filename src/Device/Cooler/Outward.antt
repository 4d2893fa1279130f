-- ===== src/Device/Cooler/Outward.antt =====
-- CoolerCtl::upload_database and CoolerCtl::network_respond of src/CoolerCtl.cpp.
use camannex.Base.{
  ℕ, ◌/◌, List, [], ◌∷◌, Bytes, not, Option, none, some, if◌then◌else◌, ◌==◌, ◌>>=◌, map, rest_of,
  get_or,
}
use camannex.Base.Text.{decimal3}
use camannex.Buffer.{CircularBuffer}
use camannex.Tcp.{Client}
use camannex.Protocol
use camannex.Protocol.Boost.{Strings}
use camannex.Protocol.{Output, compact_cooler, cooler_text, new_cooler}
use camannex.Transfer.{Transfer}
use camannex.Transfer.Upload.{Answer, Outcome}
use camannex.Transfer.Send.{upload_temperature}
use camannex.Device.Float.{Float}
use camannex.Device.Report.{hand_over, sent_lines}
use camannex.Device.Cooler.{CoolerData}

-- `narrow` turns a `double` into a `float`.
module _ (fl : Float) (st : Strings) (narrow : fl.Double → st.Single) where
  open fl use {Double}

  -- `print` is the text of `%f`, `source` the name of DataTransfer.cpp. `answers` has what the server
  -- does for each record. The uploads, each with the text `cid` that a failure is logged with.
  unfoldable pub upload_database :
      (st.Single → Bytes)
      → Bytes
      → Transfer
      → (grpid now : Bytes) → List Answer
      → List (CoolerData Double)
      → Option (List (Outcome × Option Bytes))
  unfolding upload_temperature decimal3
  upload_database print source t grpid now answers [] = some []
  upload_database print source t grpid now [] (x ∷ xs) = none
  upload_database print source t grpid now (a ∷ answers) (x ∷ xs) =
      let uid = decimal3 (x.idd / 10) in
      let cid = decimal3 x.idd in
      let later = upload_database print source t grpid now answers xs in
      upload_temperature source st.Single print t grpid uid cid (narrow x.vol) (narrow x.cur)
        (narrow x.thot) (narrow x.coolget) (narrow x.coolset) now (some 200) a
      >>= λ o. later >>= λ os. some ((o, if not (o.rst_code == 0) then some cid else none) ∷ os)

  -- What network_respond fills in for one record.
  unfoldable pub fill : Bytes → CoolerData Double → Protocol.Cooler st
  unfolding decimal3 new_cooler
  fill grpid r = record (new_cooler st) {
    gid = grpid;
    uid = decimal3 (r.idd / 10);
    cid = decimal3 r.idd;
    voltage = narrow r.vol;
    current = narrow r.cur;
    hotend = narrow r.thot;
    coolget = narrow r.coolget;
    coolset = narrow r.coolset;
  }

  module _ (cb : CircularBuffer) where
    open cb use {items, capacity}

    -- CoolerCtl::network_respond. `sent` has what a socket without buffer takes of each line.
    unfoldable pub network_respond :
        Bytes → List (CoolerData Double) → List ℕ → Output × Client cb → Option (Output × Client cb)
    unfolding fill compact_cooler hand_over
    network_respond grpid [] sent (out, s) = some (out, s)
    network_respond grpid (r ∷ rs) sent (out, s) =
        compact_cooler st (some (fill grpid r)) out >>= λ l.
        network_respond grpid rs (rest_of sent) (l.1, hand_over cb l.0 l.1 (get_or sent 0 0) s)

    -- What the server receives for the records.
    abbrev pub lines : Bytes → List (CoolerData Double) → Bytes
    lines grpid rs = sent_lines cb st (map (λ r. cooler_text st (fill grpid r)) rs)
