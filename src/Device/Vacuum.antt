-- ===== src/Device/Vacuum.antt =====
-- src/VacuumCtl.cpp and src/VacuumCtl.h: VacuumData and the virtual functions of VacuumCtl.
pub mod Outward
use camannex.Base.{
  ℕ, refl, List, [], ◌∷◌, Bytes, Bool, true, false, not, Option, none, some, if◌then◌else◌, ◌==◌,
  map, eq_bytes,
}
use camannex.Base.Int.{ℤ, pos, negsuc}
use camannex.Frame
use camannex.Frame.Vacuum.{Reply, too_short, text}
use camannex.Controller.Virtual.{Directive, Virtual}
use camannex.Device.Float.{Float, c_str}
use camannex.Device.Records.{Numbered, check_data, update_device}

-- VacuumFuncID
abbrev pub vfid_read_cur : ℕ
vfid_read_cur = 0x0a

abbrev pub vfid_read_pres : ℕ
vfid_read_pres = 0x0b

abbrev pub vfid_read_vol : ℕ
vfid_read_vol = 0x0c

-- VACUUM_MONITOR
abbrev pub vacuum_monitor : List ℕ
vacuum_monitor = vfid_read_cur ∷ vfid_read_pres ∷ vfid_read_vol ∷ []

-- VacuumData
pub record VacuumData (F : Type 0) : Type 0 where
  pub dirty : Bool
  pub idd : ℕ
  pub cur : F
  pub pres : Bytes
  pub vol : F

unfoldable pub directive : ℕ → ℕ → Directive
directive idd idf =
    let (n, out) = Frame.Vacuum.encode_data idd idf [] in record { idf = idf; len = n; msg = out }

-- VacuumCtl::generate_directive
unfoldable pub generate_directive : ℕ → List Directive
unfolding directive
generate_directive idd = map (directive idd) vacuum_monitor

module _ (fl : Float) where
  open fl use {Double, zero_value, ne, atof}

  abbrev pub numbered : Numbered (VacuumData Double)
  numbered = record {
    idd = λ r. r.idd;
    with_idd = λ n r. record r { idd = n };
    blank = record { dirty = false; idd = 0; cur = zero_value; pres = []; vol = zero_value };
    idd-with_idd = λ n r. refl;
  }

  -- VacuumData::set_current, set_pressure and set_voltage
  unfoldable pub set_current : Double → VacuumData Double → VacuumData Double
  set_current value r = if ne value r.cur then record r { cur = value; dirty = true } else r

  unfoldable pub set_pressure : Bytes → VacuumData Double → VacuumData Double
  set_pressure value r =
      if not (eq_bytes value r.pres) then record r { pres = value; dirty = true } else r

  unfoldable pub set_voltage : Double → VacuumData Double → VacuumData Double
  set_voltage value r = if ne value r.vol then record r { vol = value; dirty = true } else r

  -- The ladder of decode_data over the number of the function that was asked for.
  unfoldable pub store : ℕ → Bytes → VacuumData Double → VacuumData Double
  unfolding set_current set_pressure set_voltage
  store idf strval r =
      if idf == vfid_read_cur
      then set_current (atof (c_str strval)) r
      else if idf == vfid_read_vol
      then set_voltage (atof (c_str strval)) r
      else if idf == vfid_read_pres
      then set_pressure strval r
      else r

  -- VacuumCtl::decode_data. The function is that of the directive in front.
  unfoldable pub decode_data :
      ℕ → Bytes → List Directive → List (VacuumData Double) → Option (ℤ × List (VacuumData Double))
  decode_data len ptr drct data_ = elim (Frame.Vacuum.read_frame len ptr) [
    | too_short ↦ some (negsuc 0, data_)
    | text idd strval ↦ elim drct [
      | [] ↦ none
      | one ∷ more ↦ some (pos 0, update_device numbered idd (store one.idf strval) data_)
    ]
  ]

  -- VacuumCtl::write_log
  unfoldable pub write_log :
      List (VacuumData Double) → List (VacuumData Double) × List (VacuumData Double)
  write_log [] = ([], [])
  write_log (r ∷ rs) =
      let (logged, left) = write_log rs in
      if not r.dirty
      then (logged, r ∷ left)
      else (record r { dirty = false } ∷ logged, record r { dirty = false } ∷ left)

  -- The members that the constructor sets, and the virtual functions.
  abbrev pub vacuum : Virtual (VacuumData Double)
  vacuum = record {
    head = [];
    tail = 0x0d ∷ [];
    check_data = check_data numbered;
    generate_directive = generate_directive;
    encode_data = Frame.Vacuum.encode_data;
    decode_data = decode_data;
    write_log = write_log;
  }
