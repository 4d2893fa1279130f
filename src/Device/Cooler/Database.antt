-- ===== src/Device/Cooler/Database.antt =====
-- What CoolerCtl::upload_database of src/CoolerCtl.cpp asks the server for.
use camannex.Base.{
  ◌+◌, ◌/◌, ◌<◌, ◌≤◌, ◌≡◌, refl, List, [], ◌∷◌, ◌++◌, Bytes, codes, false, Option, none, some,
  length, arith, All, lt→ltb, ltb, if◌then◌else◌,
}
use camannex.Base.Text.{decimal3}
use camannex.Protocol.Boost.{Strings}
use camannex.Transfer.{CurlCache, insert_all, insert, action, update_temperature_url}
use camannex.Transfer.Reply.{reply}
use camannex.Transfer.Upload.{Answer, Outcome, Part, field, form_of}
use camannex.Transfer.Send.{upload_temperature}
use camannex.Transfer.Requests.{IsTaken, client, upload_datas-reply}
use camannex.Device.Float.{Float}
use camannex.Device.Cooler.{CoolerData}
use camannex.Device.Cooler.Outward.{upload_database}

module _ (fl : Float) (st : Strings) (narrow : fl.Double → st.Single) where
  open fl use {Double}

  module _ (print : st.Single → Bytes) (source : Bytes) (cache : CurlCache)
      (root grpid now : Bytes) where
    -- The form for a record: its fields in the order of their names.
    abbrev pub parts : CoolerData Double → List Part
    parts x =
        field (codes "camId") (decimal3 x.idd)
        ∷ field (codes "coolget") (print (narrow x.coolget))
        ∷ field (codes "coolset") (print (narrow x.coolset))
        ∷ field (codes "current") (print (narrow x.cur))
        ∷ field (codes "groupId") grpid
        ∷ field (codes "thot") (print (narrow x.thot))
        ∷ field (codes "time") now
        ∷ field (codes "unitId") (decimal3 (x.idd / 10))
        ∷ field (codes "voltage") (print (narrow x.vol))
        ∷ []

    -- The upload of one record that the server takes.
    abbrev pub taken : Answer → CoolerData Double → Outcome
    taken a x = record {
      rst_code = 0;
      status = some (reply a.pieces ++ 10 ∷ []);
      request = some (root ++ codes "uploadTemperature.action", parts x);
      leaked = [];
    }

    upload_one :
        (a : Answer) (x : CoolerData Double)
        → length root < 10200
        → IsTaken a
        → upload_temperature source st.Single print
            (client cache root)
            grpid
            (decimal3 (x.idd / 10))
            (decimal3 x.idd)
            (narrow x.vol)
            (narrow x.cur)
            (narrow x.thot)
            (narrow x.coolget)
            (narrow x.coolset)
            now
            (some 200)
            a
          ≡ (if ltb (length (reply a.pieces) + 1) 200 then some (taken a x) else none)
    unfolding upload_temperature insert_all insert action form_of
    upload_one a x short ok =
        upload_datas-reply source root [] update_temperature_url _ [] cache 200 a short
          (omega arith) ok

    -- What upload_database leaves of each record: its upload, and nothing to log.
    abbrev pub uploads : List Answer → List (CoolerData Double) → List (Outcome × Option Bytes)
    uploads (a ∷ answers) (x ∷ xs) = (taken a x, none) ∷ uploads answers xs
    uploads _ _ = []

    -- Where the server takes every upload with a text below 199 bytes, upload_database posts for each
    -- record, in order, the form with its values, and logs no failure.
    pub upload_database-uploads :
        (answers : List Answer) (xs : List (CoolerData Double))
        → length root < 10200
        → length answers ≡ length xs
        → All (λ (a : Answer). IsTaken a × (length (reply a.pieces) + 1 < 200)) answers
        → upload_database fl st narrow print source (client cache root) grpid now answers xs
          ≡ some (uploads answers xs)
    unfolding upload_database
    upload_database-uploads [] [] short e h = refl
    upload_database-uploads [] (x ∷ xs) short e h = absurd (omega arith)
    upload_database-uploads (a ∷ answers) [] short e h = absurd (omega arith)
    upload_database-uploads (a ∷ answers) (x ∷ xs) short e ((ok, fits), h) =
        rw
          (
            upload_one a x short ok,
            lt→ltb (length (reply a.pieces) + 1) 200 fits,
            upload_database-uploads answers xs short (omega arith) h,
          )
          refl

    -- Where the first upload is taken with a text of 199 bytes or more, upload_database writes it
    -- behind its 200 bytes.
    pub upload_database-overflow :
        (a : Answer) (answers : List Answer) (x : CoolerData Double) (xs : List (CoolerData Double))
        → length root < 10200
        → IsTaken a
        → 199 ≤ length (reply a.pieces)
        → upload_database fl st narrow print source
            (client cache root)
            grpid
            now
            (a ∷ answers)
            (x ∷ xs)
          ≡ none
    unfolding upload_database
    upload_database-overflow a answers x xs short ok long =
        let far : ltb (length (reply a.pieces) + 1) 200 ≡ false = ground arith in
        rw (upload_one a x short ok, far) refl
