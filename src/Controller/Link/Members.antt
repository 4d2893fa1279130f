-- ===== src/Controller/Link/Members.antt =====
-- The devices that AnnexControl::connect_serial lists with ControllerBase::AddDevice.
use camannex.Base.{
  ℕ, ◌≡◌, refl, List, [], ◌∷◌, ◌++◌, false, ◌||◌, ◌==◌, arith, Bool-cases, inl, inr, ◌∙◌,
}
use camannex.Controller.Link.{Link, listed, add_device, add_devices}

-- No device is listed twice.
unfoldable pub Distinct : List ℕ → Type 0
Distinct [] = Unit
Distinct (d ∷ ds) = (listed d ds ≡ false) × Distinct ds

listed-append : (d : ℕ) (xs ys : List ℕ) → listed d (xs ++ ys) ≡ (listed d xs || listed d ys)
unfolding listed
listed-append d [] ys = refl
listed-append d (x ∷ xs) ys = ground (arith, listed-append d xs ys)

Distinct-append :
    (d : ℕ) (xs : List ℕ) → Distinct xs → listed d xs ≡ false → Distinct (xs ++ d ∷ [])
unfolding Distinct listed
Distinct-append d [] h e = (refl, tt)
Distinct-append d (x ∷ xs) (hx, hs) e =
    (ground (arith, listed-append x xs (d ∷ [])), Distinct-append d xs hs (ground arith))

module _ {C : Type 0} where
  add_device-Distinct :
      (d : ℕ) (l : Link C) → Distinct l.all_dev → Distinct (add_device d l).all_dev
  unfolding add_device
  add_device-Distinct d l h = elim (Bool-cases (listed d l.all_dev)) [
    | inl there ↦ rw there h
    | inr new ↦ rw new (Distinct-append d l.all_dev h new)
  ]

  listed-add_device :
      (e d : ℕ) (l : Link C) → listed e (add_device d l).all_dev ≡ (listed e l.all_dev || (e == d))
  unfolding add_device listed
  listed-add_device e d l = elim (Bool-cases (listed d l.all_dev)) [
    | inl there ↦ rw there (ground arith)
    | inr new ↦ rw new (listed-append e l.all_dev (d ∷ []) ∙ ground arith)
  ]

  -- Adding the devices of a port lists each of them and no other besides those that were listed,
  -- and lists none twice.
  pub add_devices-Distinct :
      (ds : List ℕ) (l : Link C)
      → Distinct l.all_dev
      → Distinct (add_devices ds l).all_dev
        × ((e : ℕ) → listed e (add_devices ds l).all_dev ≡ (listed e l.all_dev || listed e ds))
  unfolding add_devices listed
  add_devices-Distinct [] l h = (h, λ e. ground arith)
  add_devices-Distinct (d ∷ ds) l h =
      let (distinct, lists) =
        add_devices-Distinct ds (add_device d l) (add_device-Distinct d l h) in
      (distinct, λ e. lists e ∙ rw (listed-add_device e d l) (ground arith))
