-- ===== src/Config/Devices.antt =====
-- The devices of the ports that LoadFile and InitFile leave.
use camannex.Base.{
  ℕ, zero, suc, ◌+◌, ◌≡◌, refl, sym, subst, ap, List, [], ◌∷◌, ◌++◌, Bytes, codes, Option, none,
  some, All, length, Bool-cases, inl, inr,
}
use camannex.Base.Int.{ℤ, pos_part}
use camannex.Config.{
  Annex, Ptree, numbers, init_file, load_devices, load_annex, load_ports, load_file,
}

-- The port has as many devices as it says, and none where it says a negative number.
abbrev pub Counted : Annex → Type 0
Counted a = length a.idd ≡ pos_part a.n

All-append : (xs : List Annex) (x : Annex) → All Counted xs → Counted x → All Counted (xs ++ x ∷ [])
All-append [] x h p = (p, tt)
All-append (y ∷ ys) x (h, hs) p = (h, All-append ys x hs p)

-- So have all coolers and all vacuum gauges.
abbrev AllCounted : List Annex × List Annex → Type 0
AllCounted (cs, vs) = All Counted cs × All Counted vs

module _ (pt : Ptree) where
  open pt use {Tree}

  length-load_devices : (node : Tree) (i n : ℕ) → length (load_devices pt node i n) ≡ n
  unfolding load_devices
  length-load_devices node i zero = refl
  length-load_devices node i (suc n) = ap suc (length-load_devices node (i + 1) n)

  load_annex-Counted : (node : Tree) → Counted (load_annex pt node)
  unfolding load_annex
  load_annex-Counted node = length-load_devices node 1 _

  load_ports-Counted :
      (nodes : List (Bytes × Tree)) (cs vs : List Annex)
      → All Counted cs
      → All Counted vs
      → AllCounted (load_ports pt nodes (cs, vs))
  unfolding load_ports
  load_ports-Counted [] cs vs hc hv = (hc, hv)
  load_ports-Counted ((name, node) ∷ rest) cs vs hc hv =
      let a : Annex = load_annex pt node in
      let one = load_annex-Counted node in
      let all = load_ports pt ((name, node) ∷ rest) (cs, vs) in
      elim (Bool-cases (pt.iequals name (codes "Cooler"))) [
        | inl cooler ↦
            let step : all ≡ load_ports pt rest (cs ++ a ∷ [], vs) = rw cooler in
            subst AllCounted (sym step)
              (load_ports-Counted rest (cs ++ a ∷ []) vs (All-append cs a hc one) hv)
        | inr other ↦ elim (Bool-cases (pt.iequals name (codes "Vacuum"))) [
          | inl vacuum ↦
              let step : all ≡ load_ports pt rest (cs, vs ++ a ∷ []) = rw (other, vacuum) in
              subst AllCounted (sym step)
                (load_ports-Counted rest cs (vs ++ a ∷ []) hc (All-append vs a hv one))
          | inr neither ↦
              let step : all ≡ load_ports pt rest (cs, vs) = rw (other, neither) in
              subst AllCounted (sym step) (load_ports-Counted rest cs vs hc hv)
        ]
      ]

  -- Whatever the file holds, and also where it cannot be read, each port of the configuration has as
  -- many device numbers as its number of devices says, and none where that is negative.
  pub load_file-Counted :
      (unset : ℤ) (file : Option Tree)
      → All Counted (load_file pt unset file).cooler × All Counted (load_file pt unset file).vacuum
  unfolding load_file init_file numbers
  load_file-Counted unset none = ((refl, tt), (refl, (refl, tt)))
  load_file-Counted unset (some t) = load_ports-Counted (pt.children t) [] [] tt tt
