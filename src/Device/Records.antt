-- ===== src/Device/Records.antt =====
-- The records that a controller keeps for its devices: check_data and find_device, which are
-- written alike in src/CoolerCtl.cpp and src/VacuumCtl.cpp.
pub mod Find
use camannex.Base.{
  ℕ, zero, suc, ◌+◌, ◌-◌, ◌≤◌, ◌<◌, ◌≡◌, ◌≢◌, refl, sym, ap, ap₂, ◌∙◌, List, [], ◌∷◌, ◌++◌, Bool,
  true, false, Option, none, some, if◌then◌else◌, not, ◌==◌, arith, length, take, drop, replicate,
  get_or, map, take-length, Bool-cases, inl, inr,
}

-- The device's number in a record, and the record with another number.
pub record Numbered (R : Type 0) : Type 0 where
  pub idd : R → ℕ
  pub with_idd : ℕ → R → R
  pub blank : R
  pub idd-with_idd : (n : ℕ) (r : R) → idd (with_idd n r) ≡ n

module _ {R : Type 0} (num : Numbered R) where
  open num use {idd, with_idd, blank, idd-with_idd}

  -- `data_.resize(nDev)`: records are dropped from the end, or new ones added.
  resize : ℕ → List R → List R
  resize zero rs = []
  resize (suc n) [] = blank ∷ resize n []
  resize (suc n) (r ∷ rs) = r ∷ resize n rs

  -- `for (i = 0; i < nDev; ++i) data_[i].idd = allDev_[i]`
  number_all : List ℕ → List R → List R
  number_all [] rs = rs
  number_all (n ∷ ns) [] = []
  number_all (n ∷ ns) (r ∷ rs) = with_idd n r ∷ number_all ns rs

  -- check_data, with `nDev = allDev_.size()`
  unfoldable pub check_data : List ℕ → List R → List R
  unfolding resize number_all
  check_data all_dev data_ =
      if not (length all_dev == length data_)
      then number_all all_dev (resize (length all_dev) data_)
      else data_

  -- find_device: the record that the loop ends at. The rest of decode_data writes through the
  -- pointer that it returns, so the write is passed in; without a record nothing is written.
  unfoldable pub update_device : ℕ → (R → R) → List R → List R
  update_device n f [] = []
  update_device n f (r ∷ rs) =
      let later = r ∷ update_device n f rs in if not (idd r == n) then later else f r ∷ rs

  unfoldable pub find_device : ℕ → List R → Option R
  find_device n [] = none
  find_device n (r ∷ rs) =
      let later = find_device n rs in if not (idd r == n) then later else some r

  idds-number_all :
      (ns : List ℕ) (rs : List R) → map idd (number_all ns (resize (length ns) rs)) ≡ ns
  unfolding resize number_all
  idds-number_all [] rs = refl
  idds-number_all (n ∷ ns) [] = ap₂ ◌∷◌ (idd-with_idd n blank) (idds-number_all ns [])
  idds-number_all (n ∷ ns) (r ∷ rs) = ap₂ ◌∷◌ (idd-with_idd n r) (idds-number_all ns rs)

  -- The records stand for the first of the devices, in order. AddDevice only adds to the devices,
  -- so this holds between two calls of check_data.
  abbrev pub Follows : List ℕ → List R → Type 0
  Follows all_dev rs = map idd rs ≡ take (length rs) all_dev

  -- Whatever devices were added since, check_data leaves one record for each device, in order.
  pub check_data-Follows :
      (all_dev : List ℕ) (rs : List R)
      → Follows all_dev rs
      → map idd (check_data all_dev rs) ≡ all_dev
  unfolding check_data
  check_data-Follows all_dev rs h = elim (Bool-cases (length all_dev == length rs)) [
    | inr differ ↦ rw differ (idds-number_all all_dev rs)
    | inl same ↦ rw same (h ∙ take-length (length rs) all_dev (ground arith))
  ]
