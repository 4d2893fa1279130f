-- ===== src/Controller/Virtual.antt =====
-- The virtual functions of ControllerBase, which CoolerCtl and VacuumCtl implement: the interface
-- through which the threads of ControllerBase reach the device. `D` is what a device keeps.
use camannex.Base.{ℕ, List, Bytes, Option}
use camannex.Base.Int.{ℤ}

-- ControllerBase::Directive: `len` is the length of the text, `msg` what was written to its store.
pub record Directive : Type 0 where
  pub idf : ℕ
  pub len : ℕ
  pub msg : Bytes

pub record Virtual (D : Type 0) : Type 0 where
  -- `head_` and `tail_` of the constructor; `nhead_` and `ntail_` are their lengths
  pub head : Bytes
  pub tail : Bytes
  -- the records for the devices that are listed
  pub check_data : List ℕ → List D → List D
  -- what it appends to the directives, for one device
  pub generate_directive : ℕ → List Directive
  pub encode_data : ℕ → ℕ → Bytes → ℕ × Bytes
  -- `none`: it reads the front of an empty list of directives
  pub decode_data : ℕ → Bytes → List Directive → List D → Option (ℤ × List D)
  -- the records that it logs, and those that it leaves
  pub write_log : List D → List D × List D
