-- ===== src/Numeric/Loop.antt =====
-- Counted loops over arrays that may be left, and the rules by which a call of one returns.
use camannex.Base.{
  ℕ, zero, suc, ◌+◌, ◌<◌, ◌≤◌, ◌≡◌, refl, List, [], ◌∷◌, Option, none, some, ltb, if◌then◌else◌,
  ◌>>=◌, length, get_elem?, set, length-set, lt→ltb, arith,
}

-- `for (j = i; ...; ++j)`, so many rounds.
unfoldable pub for_from : {S : Type 0} → ℕ → ℕ → (ℕ → S → Option S) → S → Option S
for_from zero i body s = some s
for_from (suc n) i body s = body i s >>= for_from n (i + 1) body

-- `xs[i] = v`; out of the array it is undefined, as reading there is.
unfoldable pub store : {A : Type 0} → List A → ℕ → A → Option (List A)
store xs i v = if ltb i (length xs) then some (set xs i v) else none

-- It returns, with a result of which P holds.
abbrev pub Returns : {S : Type 0} → (S → Type 0) → Option S → Type 0
Returns {S} P o = (s : S) × (o ≡ some s) × P s

pub Returns-some : {S : Type 0} (P : S → Type 0) (s : S) → P s → Returns P (some s)
Returns-some P s h = (s, refl, h)

pub Returns->>= :
    {S T : Type 0} (P : S → Type 0) (Q : T → Type 0) (o : Option S) (f : S → Option T)
    → Returns P o
    → ((s : S) → P s → Returns Q (f s))
    → Returns Q (o >>= f)
Returns->>= P Q o f (s, e, h) next = let r = next s h in (r.0, rw e r.1, r.2)

-- A loop whose body keeps P returns, and P holds.
pub Returns-for_from :
    {S : Type 0} (P : S → Type 0) (n i : ℕ) (body : ℕ → S → Option S)
    → ((j : ℕ) → i ≤ j → j < i + n → (s : S) → P s → Returns P (body j s))
    → (s : S) → P s
    → Returns P (for_from n i body s)
unfolding for_from
Returns-for_from P zero i body keep s h = (s, refl, h)
Returns-for_from P (suc n) i body keep s h =
    Returns->>= P P (body i s) (for_from n (i + 1) body) (keep i (omega arith) (omega arith) s h)
      (λ s' h'.
        Returns-for_from P n (i + 1) body (λ j a b. keep j (omega arith) (omega arith)) s' h')

module _ {A : Type 0} where
  pub Returns-get_elem? :
      {T : Type 0} (Q : T → Type 0) (xs : List A) (i : ℕ) (f : A → Option T)
      → i < length xs
      → ((v : A) → Returns Q (f v))
      → Returns Q (get_elem? xs i >>= f)
  Returns-get_elem? Q [] i f h next = absurd (omega arith)
  Returns-get_elem? Q (x ∷ xs) zero f h next = next x
  Returns-get_elem? Q (x ∷ xs) (suc i) f h next = Returns-get_elem? Q xs i f (omega arith) next

  pub Returns-store :
      {T : Type 0} (Q : T → Type 0) (xs : List A) (i : ℕ) (v : A) (f : List A → Option T)
      → i < length xs
      → ((ys : List A) → length ys ≡ length xs → Returns Q (f ys))
      → Returns Q (store xs i v >>= f)
  unfolding store
  Returns-store Q xs i v f h next =
      rw (lt→ltb i (length xs) h) (next (set xs i v) (length-set xs i v))

  pub Returns-stored :
      (Q : List A → Type 0) (xs : List A) (i : ℕ) (v : A)
      → i < length xs
      → ((ys : List A) → length ys ≡ length xs → Q ys)
      → Returns Q (store xs i v)
  unfolding store
  Returns-stored Q xs i v h next =
      rw (lt→ltb i (length xs) h) (set xs i v, refl, next (set xs i v) (length-set xs i v))
