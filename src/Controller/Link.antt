-- ===== src/Controller/Link.antt =====
-- The members of ControllerBase that AnnexControl sets: the port's name, the network connection, the
-- group, the database and the devices on the port.
pub mod Members
use camannex.Base.{
  ℕ, zero, suc, ◌+◌, ◌≡◌, ◌≢◌, ◌⊎◌, inl, inr, refl, ap, List, [], ◌∷◌, ◌++◌, Bytes, Bool, true,
  false, Option, none, some, if◌then◌else◌, ◌==◌, arith, length,
}

-- `C` stands for TcpCPtr: what a connection is. An empty URL leaves no database.
pub record Link (C : Type 0) : Type 0 where
  pub portname : Bytes
  pub grpid : Bytes
  pub all_dev : List ℕ
  pub tcp : Option C
  pub db : Option Bytes

-- `for (i = 0; i < n && idd != allDev_[i]; ++i)`: whether the loop ends before `n`.
unfoldable pub listed : ℕ → List ℕ → Bool
listed idd [] = false
listed idd (d ∷ ds) = let later = listed idd ds in if idd == d then true else later

module _ {C : Type 0} where
  -- ControllerBase::CoupleNetwork. The session is a pointer that may be empty.
  unfoldable pub couple_network : Option C → Bytes → Link C → Link C
  couple_network session grpid l = record l {
    tcp = elim l.tcp [ none ↦ session | some c ↦ some c ];
    grpid = grpid;
  }

  -- ControllerBase::DecoupleNetwork
  unfoldable pub decouple_network : Link C → Link C
  decouple_network l = record l { tcp = none }

  -- ControllerBase::SetDatabase
  unfoldable pub set_database : Bytes → Link C → Link C
  set_database [] l = record l { db = none }
  set_database (c ∷ url) l = record l { db = some (c ∷ url) }

  -- ControllerBase::AddDevice
  unfoldable pub add_device : ℕ → Link C → Link C
  unfolding listed
  add_device idd l =
      if listed idd l.all_dev then l else record l { all_dev = l.all_dev ++ idd ∷ [] }

  -- The loop of AnnexControl::connect_serial over the devices of a port.
  unfoldable pub add_devices : List ℕ → Link C → Link C
  add_devices [] l = l
  add_devices (d ∷ ds) l = add_devices ds (add_device d l)
