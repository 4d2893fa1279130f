-- ===== src/Device/Cooler.antt =====
-- src/CoolerCtl.cpp and src/CoolerCtl.h: CoolerData and the virtual functions of CoolerCtl.
pub mod Queueing
pub mod Replies
pub mod Log
pub mod Directives
pub mod Outward
pub mod Database
use camannex.Base.{
  ℕ, ◌≡◌, refl, List, [], ◌∷◌, Bytes, codes, Bool, true, false, not, Option, none, some,
  if◌then◌else◌, ◌==◌, map,
}
use camannex.Base.Int.{ℤ, pos, negsuc}
use camannex.Frame
use camannex.Frame.Cooler.{Reply, too_short, odd_text, no_text, text}
use camannex.Controller.Virtual.{Directive, Virtual}
use camannex.Device.Float.{Float, c_str}
use camannex.Device.Records.{Numbered, check_data, update_device}

-- CoolerFuncID
abbrev pub cfid_read_cur : ℕ
cfid_read_cur = 0x21

abbrev pub cfid_read_vol : ℕ
cfid_read_vol = 0x22

abbrev pub cfid_read_t1 : ℕ
cfid_read_t1 = 0x23

abbrev pub cfid_read_t2 : ℕ
cfid_read_t2 = 0x24

abbrev pub cfid_read_coolset : ℕ
cfid_read_coolset = 0x15

-- COOLER_MONITOR
abbrev pub cooler_monitor : List ℕ
cooler_monitor =
    cfid_read_vol ∷ cfid_read_cur ∷ cfid_read_t1 ∷ cfid_read_t2 ∷ cfid_read_coolset ∷ []

-- CoolerData
pub record CoolerData (F : Type 0) : Type 0 where
  pub dirty : Bool
  pub idd : ℕ
  pub vol : F
  pub cur : F
  pub thot : F
  pub coolset : F
  pub coolget : F

-- The directive for one function of a device.
unfoldable pub directive : ℕ → ℕ → Directive
directive idd idf =
    let (n, out) = Frame.Cooler.encode_data idd idf [] in record { idf = idf; len = n; msg = out }

-- CoolerCtl::generate_directive
unfoldable pub generate_directive : ℕ → List Directive
unfolding directive
generate_directive idd = map (directive idd) cooler_monitor

module _ (fl : Float) where
  open fl use {Double, zero_value, ne, atof}

  abbrev pub numbered : Numbered (CoolerData Double)
  numbered = record {
    idd = λ r. r.idd;
    with_idd = λ n r. record r { idd = n };
    blank = record {
      dirty = false;
      idd = 0;
      vol = zero_value;
      cur = zero_value;
      thot = zero_value;
      coolset = zero_value;
      coolget = zero_value;
    };
    idd-with_idd = λ n r. refl;
  }

  -- CoolerData::set_voltage and its kin
  unfoldable pub set_voltage : Double → CoolerData Double → CoolerData Double
  set_voltage value r = if ne r.vol value then record r { vol = value; dirty = true } else r

  unfoldable pub set_current : Double → CoolerData Double → CoolerData Double
  set_current value r = if ne r.cur value then record r { cur = value; dirty = true } else r

  unfoldable pub set_thot : Double → CoolerData Double → CoolerData Double
  set_thot value r = if ne r.thot value then record r { thot = value; dirty = true } else r

  unfoldable pub set_coolset : Double → CoolerData Double → CoolerData Double
  set_coolset value r = if ne r.coolset value then record r { coolset = value; dirty = true } else r

  unfoldable pub set_coolget : Double → CoolerData Double → CoolerData Double
  set_coolget value r = if ne r.coolget value then record r { coolget = value; dirty = true } else r

  -- The ladder of decode_data over the function's number.
  unfoldable pub store : ℕ → Double → CoolerData Double → CoolerData Double
  unfolding set_voltage set_current set_thot set_coolset set_coolget
  store idf value r =
      if idf == cfid_read_vol
      then set_voltage value r
      else if idf == cfid_read_cur
      then set_current value r
      else if idf == cfid_read_t1
      then set_coolget value r
      else if idf == cfid_read_t2
      then set_thot value r
      else if idf == cfid_read_coolset
      then set_coolset value r
      else r

  -- CoolerCtl::decode_data. `unset` is what `value` happens to hold where the code sets none.
  unfoldable pub decode_data :
      Double
      → ℕ
      → Bytes
      → List Directive
      → List (CoolerData Double)
      → Option (ℤ × List (CoolerData Double))
  decode_data unset len ptr drct data_ = elim (Frame.Cooler.read_frame len ptr) [
    | too_short ↦ some (negsuc 0, data_)
    | odd_text ↦ some (negsuc 1, data_)
    | no_text idd idf ↦ some (pos 0, update_device numbered idd (store idf unset) data_)
    | text idd idf strval ↦
        some (pos 0, update_device numbered idd (store idf (atof (c_str strval))) data_)
  ]

  -- CoolerCtl::write_log: the records that it logs, and those that it leaves.
  unfoldable pub write_log :
      List (CoolerData Double) → List (CoolerData Double) × List (CoolerData Double)
  write_log [] = ([], [])
  write_log (r ∷ rs) =
      let (logged, left) = write_log rs in
      if not r.dirty
      then (logged, r ∷ left)
      else (record r { dirty = false } ∷ logged, record r { dirty = false } ∷ left)

  -- The members that the constructor sets, and the virtual functions.
  abbrev pub cooler : Double → Virtual (CoolerData Double)
  cooler unset = record {
    head = codes ":";
    tail = 0x0d ∷ 0x0a ∷ [];
    check_data = check_data numbered;
    generate_directive = generate_directive;
    encode_data = Frame.Cooler.encode_data;
    decode_data = decode_data unset;
    write_log = write_log;
  }
