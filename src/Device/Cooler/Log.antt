-- ===== src/Device/Cooler/Log.antt =====
-- The mark `dirty` of a cooler's record: what sets it and what CoolerCtl::write_log makes of it.
use camannex.Base.{
  ℕ, ◌≡◌, refl, List, [], ◌∷◌, true, false, if◌then◌else◌, ◌==◌, arith, map, ap, ◌∙◌, Bool-cases,
  inl, inr,
}
use camannex.Device.Float.{Float}
use camannex.Device.Records.{update_device}
use camannex.Device.Cooler.{
  CoolerData, numbered, store, set_voltage, set_current, set_thot, set_coolset, set_coolget,
  write_log,
}

module _ (fl : Float) where
  open fl use {Double, ne}

  abbrev pub logged : CoolerData Double → CoolerData Double
  logged r = record r { dirty = false }

  -- No record waits to be logged.
  abbrev pub clean : List (CoolerData Double) → List (CoolerData Double)
  clean = map logged

  -- The records that wait to be logged, as they are logged.
  unfoldable pub waiting : List (CoolerData Double) → List (CoolerData Double)
  waiting [] = []
  waiting (r ∷ rs) =
      let later = waiting rs in if r.dirty then record r { dirty = false } ∷ later else later

  -- write_log logs the records that wait, in order, and leaves none waiting; nothing else of the
  -- records changes.
  pub write_log_lem : (rs : List (CoolerData Double)) → write_log fl rs ≡ (waiting rs, clean rs)
  unfolding write_log waiting
  write_log_lem [] = refl
  write_log_lem (r ∷ rs) = elim (Bool-cases r.dirty) [
    | inl d ↦ rw (d, write_log_lem rs)
    | inr d ↦ rw (d, write_log_lem rs)
  ]

  store-dirty :
      (idf : ℕ) (v : Double) (r : CoolerData Double)
      → ne v v ≡ false
      → (store fl idf v (record (store fl idf v r) { dirty = false })).dirty ≡ false
  unfolding store set_voltage set_current set_thot set_coolset set_coolget
  store-dirty idf v r h = ground arith

  idd-store : (idf : ℕ) (v : Double) (r : CoolerData Double) → (store fl idf v r).idd ≡ r.idd
  unfolding store set_voltage set_current set_thot set_coolset set_coolget
  idd-store idf v r = ground arith

  waiting-clean : (rs : List (CoolerData Double)) → waiting (clean rs) ≡ []
  unfolding waiting
  waiting-clean [] = refl
  waiting-clean (r ∷ rs) = waiting-clean rs

  waiting-again :
      (idd idf : ℕ) (v : Double) (rs : List (CoolerData Double))
      → ne v v ≡ false
      → let step = update_device (numbered fl) idd (store fl idf v) in
        waiting (step (clean (step rs))) ≡ []
  unfolding waiting update_device
  waiting-again idd idf v [] h = refl
  waiting-again idd idf v (r ∷ rs) h = elim (Bool-cases (r.idd == idd)) [
    | inl here ↦
        let stays : ((store fl idf v r).idd == idd) ≡ true =
          ap (λ i. i == idd) (idd-store idf v r) ∙ here in
        rw (here, stays, store-dirty idf v r h) (waiting-clean rs)
    | inr other ↦ rw (other, other) (waiting-again idd idf v rs h)
  ]

  -- A reading that was stored and logged is not logged again where the device reports the same
  -- value of the same function once more, for a value that is equal to itself.
  pub repeated_reading :
      (idd idf : ℕ) (v : Double) (rs : List (CoolerData Double))
      → ne v v ≡ false
      → let left = (write_log fl (update_device (numbered fl) idd (store fl idf v) rs)).1 in
        (write_log fl (update_device (numbered fl) idd (store fl idf v) left)).0 ≡ []
  repeated_reading idd idf v rs h =
      rw (write_log_lem (update_device (numbered fl) idd (store fl idf v) rs))
        (ap (λ p. p.0) (write_log_lem _) ∙ waiting-again idd idf v rs h)
