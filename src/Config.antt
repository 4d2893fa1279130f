-- ===== src/Config.antt =====
-- src/parameter.h: the configuration. boost's property tree is a parameter: a tree with typed lookups
-- that take a default, and its children with their names.
pub mod Devices
pub mod Tests
use camannex.Base.{
  ℕ, zero, suc, ◌+◌, ◌-◌, ◌%◌, List, [], ◌∷◌, ◌++◌, Bytes, codes, u8, Bool, true, false, not, ◌||◌,
  Option, none, some, if◌then◌else◌,
}
use camannex.Base.Int.{ℤ, pos, negsuc, pos_part}

-- Annex: a serial port with its devices.
pub record Annex : Type 0 where
  pub port_name : Bytes
  pub baud_rate : ℤ
  pub n : ℤ
  pub idd : List ℕ

-- param_config
pub record ParamConfig : Type 0 where
  pub groupid : Bytes
  pub b_server : Bool
  pub ip_server : Bytes
  pub port_server : ℕ
  pub enable_db : Bool
  pub url_db : Bytes
  pub cooler : List Annex
  pub vacuum : List Annex
  pub enable_ntp : Bool
  pub host_ntp : Bytes
  pub port_ntp : ℕ
  pub max_diff_ntp : ℤ

-- boost::property_tree, boost::iequals, and the key that boost::format makes of a device's number.
pub record Ptree : Type 1 where
  pub Tree : Type 0
  pub get_text : Tree → Bytes → Bytes → Bytes
  pub get_bool : Tree → Bytes → Bool → Bool
  -- an `int`
  pub get_number : Tree → Bytes → ℤ → ℤ
  pub children : Tree → List (Bytes × Tree)
  pub id_key : ℕ → Bytes
  pub iequals : Bytes → Bytes → Bool

-- An `int` that is stored in an unsigned type of `m` values.
abbrev wrap : ℕ → ℤ → ℕ
wrap m (pos n) = n % m
wrap m (negsuc n) = m - 1 - n % m

-- `for (i = 1; i <= n; ++i)` of InitFile, which gives the devices their numbers.
unfoldable pub numbers : ℕ → ℕ → List ℕ
numbers i zero = []
numbers i (suc rounds) = u8 i ∷ numbers (i + 1) rounds

-- param_config::InitFile: the parameters that it leaves. A port whose baud rate is not set keeps the
-- value `unset`, which happens to be there.
unfoldable pub init_file : ℤ → ParamConfig
unfolding numbers
init_file unset = record {
  groupid = codes "001";
  b_server = false;
  ip_server = codes "172.28.1.11";
  port_server = 4016;
  enable_db = true;
  url_db = codes "http://172.28.8.8:8080/gwebend/";
  cooler =
      record { port_name = codes "/dev/ttyS0"; baud_rate = pos 9600; n = pos 2; idd = numbers 1 2 }
      ∷ [];
  vacuum =
      record { port_name = codes "/dev/ttyS1"; baud_rate = pos 9600; n = pos 1; idd = numbers 1 1 }
      ∷ record { port_name = []; baud_rate = unset; n = pos 1; idd = numbers 1 1 }
      ∷ [];
  enable_ntp = false;
  host_ntp = codes "172.28.1.3";
  port_ntp = 123;
  max_diff_ntp = pos 5;
}

module _ (pt : Ptree) where
  open pt use {Tree, get_text, get_bool, get_number, children, id_key, iequals}

  -- The loop of LoadFile over the devices of a port.
  unfoldable pub load_devices : Tree → ℕ → ℕ → List ℕ
  load_devices node i zero = []
  load_devices node i (suc rounds) =
      wrap 256 (get_number node (id_key i) (pos i)) ∷ load_devices node (i + 1) rounds

  -- What LoadFile reads in the node of a port.
  unfoldable pub load_annex : Tree → Annex
  unfolding load_devices
  load_annex node =
      let n = get_number node (codes "DeviceNumber") (pos 1) in
      record {
        port_name = get_text node (codes "SerialPort.<xmlattr>.Name") (codes "/dev/ttyS0");
        baud_rate = get_number node (codes "SerialPort.<xmlattr>.BaudRate") (pos 9600);
        n = n;
        idd = load_devices node 1 (pos_part n);
      }

  -- The loop of LoadFile over the children, with the coolers and the vacuum gauges so far.
  unfoldable pub load_ports :
      List (Bytes × Tree) → List Annex × List Annex → List Annex × List Annex
  unfolding load_annex
  load_ports [] ports = ports
  load_ports ((name, node) ∷ rest) (cs, vs) =
      let bc = iequals name (codes "Cooler") in
      let bv = iequals name (codes "Vacuum") in
      let one = load_annex node in
      load_ports rest
        (if bc || bv then (if bc then (cs ++ one ∷ [], vs) else (cs, vs ++ one ∷ [])) else (cs, vs))

  -- param_config::LoadFile. `none`: the file could not be read.
  unfoldable pub load_file : ℤ → Option Tree → ParamConfig
  unfolding init_file load_ports
  load_file unset none = init_file unset
  load_file unset (some t) =
      let (cs, vs) = load_ports (children t) ([], []) in
      record {
        groupid = get_text t (codes "GroupID") (codes "001");
        b_server = get_bool t (codes "Server.<xmlattr>.Enable") false;
        ip_server = get_text t (codes "Server.<xmlattr>.IP") (codes "172.28.1.11");
        port_server = wrap 65536 (get_number t (codes "Server.<xmlattr>.Port") (pos 4016));
        enable_db = get_bool t (codes "Database.<xmlattr>.Enable") true;
        url_db =
            get_text t (codes "Database.<xmlattr>.URL") (codes "http://172.28.8.8:8080/gwebend/");
        cooler = cs;
        vacuum = vs;
        enable_ntp = get_bool t (codes "NTP.<xmlattr>.Enable") false;
        host_ntp = get_text t (codes "NTP.<xmlattr>.IP") (codes "172.28.1.3");
        port_ntp = wrap 65536 (get_number t (codes "NTP.<xmlattr>.Port") (pos 123));
        max_diff_ntp = get_number t (codes "NTP.<xmlattr>.MaxDiff") (pos 5);
      }
