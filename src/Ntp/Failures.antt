-- ===== src/Ntp/Failures.antt =====
-- When NTPClient gives up an offset: failures that count, failures that do not, and corrections.
use camannex.Base.{
  ℕ, ◌+◌, ◌≤◌, ◌≡◌, ◌⊎◌, refl, sym, subst, ◌∙◌, List, [], ◌∷◌, true, false, ◌&&◌, none, some, ◌>>=◌,
  length, All, arith, Bool-cases, Option-cases, inl, inr, map,
}
use mathlib.Core.Option.{some-injective}
use camannex.Base.Real.{Real}
use camannex.Ntp.{TimeVal, construct_packet}
use camannex.Ntp.Client.{
  Answers, Ntp, synch_clock, drifts, get_time, judge, open_socket, connected, round,
}
use camannex.Ntp.Steps.{Fine, IsSound}
use camannex.Ntp.Validity.{goes_round, run, has_address, round-Kept}

-- A round that opens the network if it has to, and gets no answer.
abbrev pub IsUnanswered : Answers → Type 0
IsUnanswered a =
    ((addr : ℕ) × (a.lookup ≡ some addr))
    × ((fd : ℕ) × (a.socket ≡ some fd))
    × ((a.sent ≡ false) ⊎ ((a.ready ≡ false) ⊎ (a.received ≡ none)))

module _ (real : Real) where
  abbrev asked : Answers → Ntp real → Ntp real
  asked a s = record s { pack = construct_packet real a.at_request s.pack }

  get_time-unanswered :
      (a : Answers) (s : Ntp real) (addr : ℕ)
      → s.res ≡ some addr
      → IsUnanswered a
      → (s' : Ntp real) × (get_time real a s ≡ some (none, s')) × (s'.nfail ≡ s.nfail)
  unfolding get_time
  get_time-unanswered a s addr r (l, k, quiet) = elim (Bool-cases a.sent) [
    | inr unsent ↦ (record (asked a s) { sock = none }, ground arith, refl)
    | inl sent ↦ elim (Bool-cases a.ready) [
      | inr late ↦ (asked a s, ground arith, refl)
      | inl ready ↦ (record (asked a s) { sock = none }, ground arith, refl)
    ]
  ]

  judge-counts : (a : Answers) (s : Ntp real) → (judge real a none s).nfail ≡ s.nfail + 1
  unfolding judge
  judge-counts a s = ground arith

  connected-on :
      (a : Answers) (s : Ntp real)
      → IsUnanswered a
      → IsSound real s
      → (s1 : Ntp real) × (connected real a s ≡ (true, s1))
        × ((addr : ℕ) × (s1.res ≡ some addr))
        × (s1.nfail ≡ s.nfail)
  unfolding connected
  connected-on a s ((addr, l), (fd, k), quiet) (linked, renewed) = elim (Option-cases s.sock) [
    | inl closed ↦ (record s { res = some addr; sock = some fd }, ground arith, (addr, refl), refl)
    | inr (fd', here) ↦ (s, ground arith, has_address real s fd' here linked, refl)
  ]

  round-counts :
      (a : Answers) (s : Ntp real)
      → IsUnanswered a
      → IsSound real s
      → (s' : Ntp real) × (round real a s ≡ some s') × (s'.nfail ≡ s.nfail + 1)
  unfolding round
  round-counts a s quiet sound =
      let (s1, on, (addr, r), same) = connected-on a s quiet sound in
      let (s2, nothing, same2) = get_time-unanswered a s1 addr r quiet in
      (judge real a none s2, rw (on, nothing) refl, omega (arith, judge-counts a s2, same, same2))

  -- As many failures are counted xs there are rounds in a row without an answer.
  failures_counted :
      (xs : List Answers) (s : Ntp real)
      → All IsUnanswered xs
      → All (λ (a : Answers). Fine a.received) xs
      → IsSound real s
      → (s' : Ntp real) × (run real (map goes_round xs) s ≡ some s')
        × IsSound real s'
        × (s'.nfail ≡ s.nfail + length xs)
  unfolding run
  failures_counted [] s quiet fine sound = (s, refl, sound, omega arith)
  failures_counted (a ∷ xs) s (q, qs) (f, fs) sound =
      let (s1, first, count) = round-counts a s q sound in
      let (s2, again, (sound2, bound)) = round-Kept real a s f sound in
      let same : s2 ≡ s1 = some-injective _ _ (sym again ∙ first) in
      let (s3, rest, sound3, more) =
        failures_counted xs s1 qs fs (subst (IsSound real) same sound2) in
      (
        s3,
        subst (λ o. (o >>= run real (map goes_round xs)) ≡ some s3) (sym first) rest,
        sound3,
        omega (arith, count, more),
      )

  -- Five rounds in a row or more that open the network and get no answer leave no valid offset.
  pub run_unanswered :
      (xs : List Answers) (s : Ntp real)
      → All IsUnanswered xs
      → All (λ (a : Answers). Fine a.received) xs
      → IsSound real s
      → 5 ≤ length xs
      → (s' : Ntp real) × (run real (map goes_round xs) s ≡ some s')
        × (s'.valid ≡ false)
        × (s'.nfail ≡ s.nfail + length xs)
  run_unanswered xs s quiet fine sound five =
      let (s', there, (linked, renewed), count) = failures_counted xs s quiet fine sound in
      (
        s',
        there,
        elim renewed [ inl invalid ↦ invalid | inr few ↦ absurd (omega (arith, few, count)) ],
        count,
      )

  -- Rounds that cannot look up the server count no failure: without a socket, the state, with an offset
  -- that is valid, stays as it is however many there are.
  pub run_lookups_fail :
      (xs : List Answers) (s : Ntp real)
      → s.sock ≡ none
      → All (λ (a : Answers). a.lookup ≡ none) xs
      → run real (map goes_round xs) s ≡ some s
  unfolding run round connected open_socket
  run_lookups_fail [] s closed fail = refl
  run_lookups_fail (a ∷ xs) s closed (f, fs) =
      let stays : round real a s ≡ some s = ground arith in
      rw stays (run_lookups_fail xs s closed fs)

  -- SynchClock uses an offset once: called again, at whatever time, it does nothing.
  pub synch_clock-synch_clock :
      (tv later : TimeVal) (s : Ntp real)
      → synch_clock real later (synch_clock real tv s) ≡ synch_clock real tv s
  unfolding synch_clock
  synch_clock-synch_clock tv later s = elim (Bool-cases (s.valid && drifts real s)) [
    | inl far ↦ rw far refl
    | inr near ↦ rw (near, near) refl
  ]
