-- ===== src/Config/Tests.antt =====
-- A configuration with a cooler and two vacuum gauges; a tree is its number of devices; the first gauge says a negative one.
use camannex.Base.{[], ◌∷◌, codes, some, All, eq_bytes}
use camannex.Base.Int.{ℤ, pos, negsuc}
use camannex.Config.{Ptree, load_file}
use camannex.Config.Devices.{Counted, load_file-Counted}

abbrev counts : Ptree
counts = record {
  Tree = ℤ;
  get_text = λ t path preset. preset;
  get_bool = λ t path preset. preset;
  get_number = λ t path preset. t;
  children = λ t.
      (codes "GroupID", pos 0)
      ∷ (codes "Cooler", pos 2)
      ∷ (codes "Vacuum", negsuc 0)
      ∷ (codes "Vacuum", t)
      ∷ [];
  id_key = λ n. codes "Device";
  iequals = eq_bytes;
}

load_file-Counted_example :
    All Counted (load_file counts (pos 0) (some (pos 3))).cooler
    × All Counted (load_file counts (pos 0) (some (pos 3))).vacuum
load_file-Counted_example = load_file-Counted counts (pos 0) (some (pos 3))
