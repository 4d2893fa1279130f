-- ===== src/Numeric/Matrix/Invert/Factor.antt =====
-- That a round of the first loop of MatInvert returns, and keeps the sizes of the arrays.
use camannex.Base.{
  ℕ, zero, suc, ◌+◌, ◌-◌, ◌*◌, ◌<◌, ◌≤◌, ◌∙◌, List, [], ◌∷◌, not, Option, none, some, ltb, ◌==◌,
  if◌then◌else◌, ◌>>=◌, length, get_elem?, set, replicate, All, length-set, lt→ltb, arith,
  Bool-cases, inl, inr,
}
use camannex.Base.Real.{Real}
use camannex.Numeric.Loop.{
  for_from, store, Returns, Returns-some, Returns->>=, Returns-for_from, Returns-get_elem?,
  Returns-stored,
}
use camannex.Numeric.Matrix.Invert.{exchange, Work, reduce_column, take_pivot, factor, factor_all}
use camannex.Numeric.Matrix.Invert.Within.{
  place, Whole, HasRoom, exchange-Whole, scale-Whole, reduce_column-HasRoom, pivot-row,
}

set-All :
    (n v : ℕ) (xs : List ℕ) (i : ℕ) → v < n → All (λ r. r < n) xs → All (λ r. r < n) (set xs i v)
set-All n v [] i h a = a
set-All n v (x ∷ xs) zero h (a, b) = (h, b)
set-All n v (x ∷ xs) (suc i) h (a, b) = (a, set-All n v xs i h b)

pub replicate-All : (n k : ℕ) → 0 < n → All (λ r. r < n) (replicate k 0)
replicate-All n zero h = tt
replicate-All n (suc k) h = (h, replicate-All n k h)

pub get_elem?-All :
    {T : Type 0} (Q : T → Type 0) (n : ℕ) (xs : List ℕ) (i : ℕ) (f : ℕ → Option T)
    → i < length xs
    → All (λ r. r < n) xs
    → ((v : ℕ) → v < n → Returns Q (f v))
    → Returns Q (get_elem? xs i >>= f)
get_elem?-All Q n [] i f h a next = absurd (omega arith)
get_elem?-All Q n (x ∷ xs) zero f h (a, b) next = next x a
get_elem?-All Q n (x ∷ xs) (suc i) f h (a, b) next = get_elem?-All Q n xs i f (omega arith) b next

module _ (real : Real) (n : ℕ) where
  open real use {R, add, sub, of_int, ltb as lt}

  abbrev pub Kept : List R → Type 0
  Kept = Whole real n

  exchange_rows-Whole :
      (j lc : ℕ) (a : List R)
      → j < n
      → lc < n
      → Kept a
      → Returns Kept (
          if not (lc == j)
          then for_from n 0 (λ k. exchange real n (j * n + k) (lc * n + k)) a
          else some a)
  exchange_rows-Whole j lc a h g w = elim (Bool-cases (lc == j)) [
    | inl same ↦ rw same (Returns-some Kept a w)
    | inr other ↦ rw other (
        Returns-for_from Kept n 0 (λ k. exchange real n (j * n + k) (lc * n + k))
          (λ k b c s r.
            exchange-Whole real n (j * n + k) (lc * n + k) s r
              (place real n j k s r h (omega arith)) (place real n lc k s r g (omega arith)))
          a w)
  ]

  take_pivot-Whole :
      (j lc : ℕ) (a : List R) → j < n → lc < n → Kept a → Returns Kept (take_pivot real n j lc a)
  unfolding take_pivot
  take_pivot-Whole j lc a h g w =
      Returns->>= Kept Kept _ _ (exchange_rows-Whole j lc a h g w) λ b e.
        Returns-get_elem? Kept b (j * n + j) _ (place real n j j b e h h) λ x.
          Returns->>= Kept Kept _ _
            (Returns-for_from Kept (n - (j + 1)) (j + 1) _
              (λ k p q s r.
                scale-Whole real n (k * n + j) _ s r (place real n k j s r (omega arith) h))
              b e)
            λ c f. Returns-stored Kept c (j * n + j) _ (place real n j j c f h h) λ d k. k ∙ f

  -- A singular matrix, or the state behind the round.
  abbrev pub Goes : Option (Work real n) → Type 0
  Goes none = Unit
  Goes (some w) = HasRoom real n w

  reduced :
      (j : ℕ) (w : Work real n)
      → j < n
      → HasRoom real n w
      → Returns (HasRoom real n) (if ltb 0 j then reduce_column real n j w else some w)
  reduced j w h r = elim (Bool-cases (ltb 0 j)) [
    | inl later ↦ rw later (reduce_column-HasRoom real n j w h r)
    | inr first ↦ rw first (Returns-some (HasRoom real n) w r)
  ]

  exchanged-HasRoom :
      (j : ℕ) (w : Work real n) (lc : ℕ) (tq : R)
      → j < n
      → lc < n
      → HasRoom real n w
      → Returns Goes (
          store w.exchanged j lc >>= λ e. take_pivot real n j lc w.a >>= λ a.
          some (some (record w { a = a; exchanged = e; tq = tq })))
  unfolding store
  exchanged-HasRoom j w lc tq h g (a, q, l, x) = rw (lt→ltb j (length w.exchanged) (omega arith)) (
      Returns->>= Kept Goes _ _ (take_pivot-Whole j lc w.a h g a) λ a' e.
        Returns-some Goes _ (e, q, length-set w.exchanged j lc ∙ l, set-All n lc w.exchanged j g x))

  factor-HasRoom :
      (j : ℕ) (w : Work real n) → j < n → HasRoom real n w → Returns Goes (factor real n j w)
  unfolding factor
  factor-HasRoom j w0 h r0 = Returns->>= (HasRoom real n) Goes _ _ (reduced j w0 h r0) λ w r.
      Returns->>= (λ (r : R × ℕ). r.1 < n) Goes _ _ (pivot-row real n j w.a h r.0)
        λ best g.
          elim (Bool-cases
            (lt best.0 (real.mul (real.literal 1 15) (if lt best.0 w.tq then w.tq else best.0)))) [
              | inl e ↦ rw e (Returns-some Goes none tt)
              | inr e ↦ rw e (exchanged-HasRoom j w best.1 _ h g r)
            ]

  pub go_on :
      {T : Type 0} (Q : Option T → Type 0) (o : Option (Work real n))
      (f : Work real n → Option (Option T))
      → Q none
      → Goes o
      → ((w : Work real n) → HasRoom real n w → Returns Q (f w))
      → Returns Q (elim o [ none ↦ some none | some w ↦ f w ])
  go_on Q none f z g next = Returns-some Q none z
  go_on Q (some w) f z g next = next w g

  pub factor_all-HasRoom :
      (rounds j : ℕ) (w : Work real n)
      → j + rounds ≤ n
      → HasRoom real n w
      → Returns Goes (factor_all real n rounds j w)
  unfolding factor_all
  factor_all-HasRoom zero j w h r = Returns-some Goes (some w) r
  factor_all-HasRoom (suc rounds) j w h r =
      Returns->>= Goes Goes _ _ (factor-HasRoom j w (omega arith) r) λ o g.
        go_on Goes o (factor_all real n rounds (j + 1)) tt g
          λ w' r'. factor_all-HasRoom rounds (j + 1) w' (omega arith) r'
