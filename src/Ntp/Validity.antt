-- ===== src/Ntp/Validity.antt =====
-- How long an offset of NTPClient counts as valid, over any sequence of calls and rounds.
use camannex.Base.{
  ℕ, suc, ◌≡◌, ◌⊎◌, refl, List, [], ◌∷◌, Bytes, Bool, true, false, Option, none, some, ◌>>=◌, arith,
  Option-cases, inl, inr,
}
use camannex.Base.Int.{ℤ}
use camannex.Base.Real.{Real}
use camannex.Ntp.{TimeVal}
use camannex.Ntp.Client.{
  Answers, Ntp, set_host, set_sync_limit, enable_auto_synch, synch_clock, judge, connected, round,
}
use camannex.Ntp.Steps.{Fine, Linked, IsSound, Kept, corrections, get_time-some, judge-Kept}

module _ (real : Real) where
  -- A call of a method, or a round of the thread.
  pub data Event : Type 0 where
    calls_set_host : Bytes → ℕ → Event
    calls_set_sync_limit : ℤ → Event
    calls_enable_auto_synch : Bool → Event
    calls_synch_clock : TimeVal → Event
    goes_round : Answers → Event

  unfoldable pub step : Event → Ntp real → Option (Ntp real)
  step (calls_set_host ip port) s = some (set_host real ip port s)
  step (calls_set_sync_limit t) s = some (set_sync_limit real t s)
  step (calls_enable_auto_synch b) s = some (enable_auto_synch real b s)
  step (calls_synch_clock tv) s = some (synch_clock real tv s)
  step (goes_round a) s = round real a s

  unfoldable pub run : List Event → Ntp real → Option (Ntp real)
  unfolding step
  run [] s = some s
  run (e ∷ es) s = step e s >>= run es

  -- Every reply of a run has an identifier.
  abbrev pub AreFine : List Event → Type 0
  AreFine [] = Unit
  AreFine (goes_round a ∷ es) = Fine a.received × AreFine es
  AreFine (_ ∷ es) = AreFine es

  -- The number of rounds in a run.
  unfoldable pub rounds : List Event → ℕ
  rounds [] = 0
  rounds (goes_round a ∷ es) = suc (rounds es)
  rounds (_ ∷ es) = rounds es

  -- A round either ends where the network cannot be opened, or goes on with an address.
  abbrev pub Begins : Answers → Ntp real → Ntp real → Type 0
  Begins a s s1 =
      IsSound real s1
      × (corrections real s1 ≡ corrections real s)
      × ((connected real a s ≡ (false, s1))
          ⊎ ((addr : ℕ) × (s1.res ≡ some addr) × (connected real a s ≡ (true, s1))))

  pub has_address :
      (s : Ntp real) (fd : ℕ)
      → s.sock ≡ some fd
      → Linked s.sock s.res
      → (addr : ℕ) × (s.res ≡ some addr)
  has_address s fd k linked = elim (Option-cases s.res) [
    | inl missing ↦ absurd (rw (k, missing) at linked)
    | inr found ↦ found
  ]

  pub connected-Begins :
      (a : Answers) (s : Ntp real) → IsSound real s → (s1 : Ntp real) × Begins a s s1
  unfolding connected
  connected-Begins a s (linked, renewed) = elim (Option-cases s.sock) [
    | inr (fd, k) ↦
        let (addr, r) = has_address s fd k linked in
        (s, ((linked, renewed), refl, inr (addr, r, ground arith)))
    | inl closed ↦ elim (Option-cases a.lookup) [
      | inl failed ↦ (s, ((linked, renewed), refl, inl (ground arith)))
      | inr (addr, found) ↦ elim (Option-cases a.socket) [
        | inl refused ↦
            (record s { res = some addr; sock = none }, ((tt, renewed), refl, inl (ground arith)))
        | inr (fd, made) ↦ (
          record s { res = some addr; sock = some fd },
          ((tt, renewed), refl, inr (addr, refl, ground arith)),
        )
      ]
    ]
  ]

  pub round-Kept :
      (a : Answers) (s : Ntp real)
      → Fine a.received
      → IsSound real s
      → (s' : Ntp real) × (round real a s ≡ some s') × Kept real 1 s s'
  unfolding round
  round-Kept a s fine sound =
      let (s1, (sound1, same, how)) = connected-Begins a s sound in
      elim how [
        | inl stops ↦ (s1, rw stops refl, (sound1, omega (arith, same)))
        | inr goes ↦
            let (addr, r, on) = goes in
            let (x, done, asked) = get_time-some real a s1 addr r fine in
            let (sound2, bound) = judge-Kept real a s1 x sound1 asked in
            (judge real a x.0 x.1, rw (on, done) refl, (sound2, omega (arith, bound, same)))
      ]
