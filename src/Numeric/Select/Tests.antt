-- ===== src/Numeric/Select/Tests.antt =====
-- Runs of k_select on natural numbers.
use mathlib.Core.List.{Perm}
use camannex.Base.{ℕ, ◌≡◌, refl, List, [], ◌∷◌, some, ltb, true, false, arith}
use camannex.Base.Int.{pos, negsuc}
use camannex.Numeric.Select.{
  Order, store, swap, arrange, scan_up, scan_down, partition, median, split, select, k_select,
}
use camannex.Numeric.Select.Exchange.{item}
use camannex.Numeric.Select.Bounds.{IsSelected}
use camannex.Numeric.Select.Rounds.{k_select-IsSelected}

nat_asymm : (a b : ℕ) → ltb a b ≡ true → ltb b a ≡ false
nat_asymm a b h = ground arith

nat_trans : (a b c : ℕ) → ltb b a ≡ false → ltb c b ≡ false → ltb c a ≡ false
nat_trans a b c h g = ground arith

abbrev numbers : Order ℕ
numbers = record { lt = ltb; lt_asymm = nat_asymm; le_trans = nat_trans }

abbrev shuffled : List ℕ
shuffled = 5 ∷ 3 ∷ 8 ∷ 1 ∷ 9 ∷ 2 ∷ 7 ∷ 3 ∷ 6 ∷ []

third : k_select numbers 0 shuffled (pos 3) ≡ some (3, 3 ∷ 1 ∷ 2 ∷ 3 ∷ 5 ∷ 6 ∷ 7 ∷ 8 ∷ 9 ∷ [])
unfolding k_select select split median partition scan_up scan_down arrange swap store
third = refl

outside : k_select numbers 0 shuffled (negsuc 0) ≡ some (0, shuffled)
unfolding k_select
outside = refl

k_select-IsSelected_example :
    (ys : List ℕ) × (k_select numbers 0 shuffled (pos 3) ≡ some (item numbers 0 ys 3, ys))
    × Perm ys shuffled
    × IsSelected numbers 0 3 ys
k_select-IsSelected_example = k_select-IsSelected numbers 0 3 shuffled (omega arith)
