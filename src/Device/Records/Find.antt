-- ===== src/Device/Records/Find.antt =====
-- find_device: which record decode_data writes to.
use camannex.Base.{ℕ, ◌≡◌, List, [], ◌∷◌, if◌then◌else◌, ◌==◌, arith}
use camannex.Device.Records.{Numbered, update_device, find_device}
use mathlib.Core.Option

module _ {R : Type 0} (num : Numbered R) where
  open num use {idd}

  -- Writing through find_device changes the record that it finds and no record of another number.
  pub find_device-update_device :
      (n m : ℕ) (f : R → R) (rs : List R)
      → ((r : R) → idd (f r) ≡ idd r)
      → find_device num m (update_device num n f rs)
        ≡ (if m == n then Option.map f (find_device num m rs) else find_device num m rs)
  unfolding find_device update_device
  find_device-update_device n m f [] keeps = ground arith
  find_device-update_device n m f (r ∷ rs) keeps =
      ground (arith, find_device-update_device n m f rs keeps, keeps r)
