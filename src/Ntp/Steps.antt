-- ===== src/Ntp/Steps.antt =====
-- What one call or one round of NTPClient keeps.
use camannex.Base.{
  ℕ, zero, ◌+◌, ◌<◌, ◌≤◌, ◌≡◌, ◌⊎◌, refl, sym, subst, ap, [], ◌∷◌, ◌++◌, Bytes, true, false, ◌&&◌,
  Option, none, some, lt→ltb, leb, ◌==◌, if◌then◌else◌, length, take, drop, arith, Bool-cases,
  Option-cases, inl, inr, take-length, drop-append_le, drop-length, length-append,
}
use mathlib.Core.Option.{some-ne-none, none-ne-some}
use native.Mathlib.Decide.{dec_lt}
use camannex.Base.Int.{ℤ}
use camannex.Base.Text.{c_string}
use camannex.Base.Real.{Real}
use camannex.Transfer.Reply.{copy_to}
use camannex.Ntp.{TimeVal, NtpPacket, read_packet, copy_identifier, construct_packet}
use camannex.Ntp.Client.{
  Answers, Ntp, synch_clock, drifts, accept, get_time, judge, seconds, offset_of,
}

-- A reply whose identifier ends within the packet.
abbrev pub HasIdentifier : Bytes → Type 0
HasIdentifier bytes =
    (s : Bytes) × (c_string (drop 12 bytes) ≡ some s) × (length s < 36) × (length bytes ≤ 384)

-- What is received, if anything, has an identifier.
abbrev pub Fine : Option Bytes → Type 0
Fine none = Unit
Fine (some bytes) = HasIdentifier bytes

-- A socket has an address.
abbrev pub Linked : Option ℕ → Option ℕ → Type 0
Linked none r = Unit
Linked (some fd) none = ⊥
Linked (some fd) (some addr) = Unit

c_string-append_some : (xs ys s : Bytes) → c_string xs ≡ some s → c_string (xs ++ ys) ≡ some s
unfolding c_string
c_string-append_some [] ys s e = absurd (ground arith)
c_string-append_some (x ∷ xs) ys s e = elim (Bool-cases (x == 0)) [
  | inl last ↦ ground arith
  | inr more ↦ elim (Option-cases (c_string xs)) [
    | inl none_left ↦ absurd (ground arith)
    | inr (t, there) ↦ ground (arith, c_string-append_some xs ys t there)
  ]
]

c_string-long : (bytes s : Bytes) → c_string (drop 12 bytes) ≡ some s → 12 ≤ length bytes
unfolding c_string
c_string-long bytes s e = elim (dec_lt (length bytes) 12) [
  | yes short ↦
      let gone : c_string (drop 12 bytes) ≡ none = rw (drop-length 12 bytes (omega arith)) refl in
      absurd (ground arith)
  | no long ↦ omega arith
]

read_packet-some :
    (memory id old : Bytes)
    → c_string (drop 12 memory) ≡ some id
    → length id < 36
    → (p : NtpPacket) × (read_packet memory old ≡ some p)
unfolding read_packet copy_identifier
read_packet-some memory id old e short = elim (Option-cases (read_packet memory old)) [
  | inl refused ↦ absurd (ground (arith, e, lt→ltb (length id) 36 short))
  | inr found ↦ found
]

copied :
    (bytes pack : Bytes)
    → 12 ≤ length bytes
    → length bytes ≤ 384
    → (rest : Bytes) × (drop 12 (copy_to 0 (length (take 384 bytes)) bytes pack)
        ≡ drop 12 bytes ++ rest)
unfolding copy_to
copied bytes pack long fits = (
  drop (0 + length bytes) pack,
  rw (take-length 384 bytes fits, take-length (length bytes) bytes (omega arith))
      (drop-append_le 12 bytes (drop (0 + length bytes) pack) long),
)

module _ (real : Real) where
  -- An open socket has an address, and an offset that is valid failed to be renewed less than five
  -- times in a row.
  abbrev pub IsSound : Ntp real → Type 0
  IsSound s = Linked s.sock s.res × ((s.valid ≡ false) ⊎ (s.nfail < 5))

  accept-some :
      (bytes : Bytes) (s : Ntp real)
      → HasIdentifier bytes
      → (p : NtpPacket) × (s' : Ntp real) × (accept real bytes s ≡ some (some p, s'))
        × (s'.sock ≡ s.sock)
        × (s'.res ≡ s.res)
        × (s'.nfail ≡ 0)
        × (s'.clock_sets ≡ s.clock_sets)
  unfolding accept
  accept-some bytes s (id, e, short, fits) =
      let (rest, behind) = copied bytes s.pack (c_string-long bytes id e) fits in
      let memory = copy_to 0 (length (take 384 bytes)) bytes s.pack in
      let there : c_string (drop 12 memory) ≡ some id =
        rw behind (c_string-append_some (drop 12 bytes) rest id e) in
      let (p, done) = read_packet-some memory id s.identifier there short in
      (
        p,
        record s { pack = memory; valid = true; nfail = 0; identifier = p.reference_identifier },
        rw done refl,
        refl,
        refl,
        refl,
        refl,
      )

  -- What get_time does to the state: it may close the socket; it either reports nothing and keeps
  -- validity and failures, or it starts to count anew.
  abbrev pub Asked : Ntp real → Option NtpPacket × Ntp real → Type 0
  Asked s (p, s') =
      ((s'.sock ≡ s.sock) ⊎ (s'.sock ≡ none))
      × (s'.res ≡ s.res)
      × (s'.clock_sets ≡ s.clock_sets)
      × (((p ≡ none) × (s'.nfail ≡ s.nfail) × (s'.valid ≡ s.valid))
          ⊎ (((q : NtpPacket) × (p ≡ some q)) × (s'.nfail ≡ 0)))

  pub get_time-some :
      (a : Answers) (s : Ntp real) (addr : ℕ)
      → s.res ≡ some addr
      → Fine a.received
      → (r : Option NtpPacket × Ntp real) × (get_time real a s ≡ some r) × Asked s r
  unfolding get_time
  get_time-some a s addr there fine = elim (Bool-cases a.sent) [
    | inr unsent ↦ (
      (none, record s1 { sock = none }),
      ground arith,
      (inr refl, refl, refl, inl (refl, refl, refl)),
    )
    | inl sent ↦ elim (Bool-cases a.ready) [
      | inr late ↦ ((none, s1), ground arith, (inl refl, refl, refl, inl (refl, refl, refl)))
      | inl ready ↦ elim (Option-cases a.received) [
        | inl failed ↦ (
          (none, record s1 { sock = none }),
          ground arith,
          (inr refl, refl, refl, inl (refl, refl, refl)),
        )
        | inr (bytes, came) ↦
            let ok : HasIdentifier bytes = rw came at fine in
            let (p, s', e, k, r, n, c) = accept-some bytes s1 ok in
            ((some p, s'), ground (arith, e), (inl k, r, c, inr ((p, refl), n)))
      ]
    ]
  ]
    where
      s1 : Ntp real
      s1 = record s { pack = construct_packet real a.at_request s.pack }

  -- How often the clock was set, and once more while an offset is valid.
  abbrev pub corrections : Ntp real → ℕ
  corrections s = length s.clock_sets + (if s.valid then 1 else 0)

  -- What every step keeps.
  abbrev pub Kept : ℕ → Ntp real → Ntp real → Type 0
  Kept more s s' = IsSound s' × (corrections s' ≤ corrections s + more)

  -- The time that SynchClock sets, and the state behind it.
  abbrev pub setting : TimeVal → Ntp real → ℤ × ℤ
  setting tv s =
      let t = real.add (seconds real tv) s.offset in
      (
        real.trunc t,
        real.trunc (real.mul (real.sub t (real.of_int (real.trunc t))) (real.literal 1000000 0)),
      )

  abbrev pub corrected : TimeVal → Ntp real → Ntp real
  corrected tv s = record s { clock_sets = s.clock_sets ++ setting tv s ∷ []; valid = false }

  pub synch_clock-cases :
      (tv : TimeVal) (s : Ntp real)
      → ((s.valid ≡ true) × (synch_clock real tv s ≡ corrected tv s)) ⊎ (synch_clock real tv s ≡ s)
  unfolding synch_clock
  synch_clock-cases tv s = elim (Bool-cases (s.valid && drifts real s)) [
    | inl far ↦ inl (ground arith, rw far refl)
    | inr near ↦ inr (rw near refl)
  ]

  pub synch_clock-Kept :
      (tv : TimeVal) (s : Ntp real) → IsSound s → Kept 0 s (synch_clock real tv s)
  synch_clock-Kept tv s (linked, renewed) = elim (synch_clock-cases tv s) [
    | inl (valid, e) ↦
        subst (λ x. Kept 0 s x) (sym e)
          (
            (linked, inl refl),
            (let one : (if s.valid then 1 else zero) ≡ 1 = rw valid refl in
                omega (arith, length-append s.clock_sets (setting tv s ∷ []), one)),
          )
    | inr e ↦ subst (λ x. Kept 0 s x) (sym e) ((linked, renewed), omega arith)
  ]

  pub after_Linked :
      (s s' : Ntp real)
      → Linked s.sock s.res
      → (s'.sock ≡ s.sock) ⊎ (s'.sock ≡ none)
      → s'.res ≡ s.res
      → Linked s'.sock s'.res
  after_Linked s s' linked (inl k) r =
      subst (λ x. Linked x s'.res) (sym k) (subst (λ x. Linked s.sock x) (sym r) linked)
  after_Linked s s' linked (inr k) r = subst (λ x. Linked x s'.res) (sym k) tt

  pub judge-Kept :
      (a : Answers) (s : Ntp real) (r : Option NtpPacket × Ntp real)
      → IsSound s
      → Asked s r
      → Kept 1 s (judge real a r.0 r.1)
  unfolding judge
  judge-Kept a s (some p, s') (linked, renewed) (sock, res, sets, inl (e, n, v)) =
      absurd (some-ne-none p e)
  judge-Kept a s (some p, s') (linked, renewed) (sock, res, sets, inr (found, n)) =
      elim (Bool-cases (drifts real s1 && s1.auto_sync)) [
        | inl far ↦
            let (sound', bound') = synch_clock-Kept a.at_synch s1 sound in
            rw far (sound', omega (arith, bound', bound))
        | inr near ↦ rw near (sound, bound)
      ]
    where
      s1 : Ntp real
      s1 = record s' { offset = offset_of real p a.at_answer }

      sound : IsSound s1
      sound = (after_Linked s s1 linked sock res, inr (omega arith))

      bound : corrections s1 ≤ corrections s + 1
      bound = ground (arith, ap length sets)
  judge-Kept a s (none, s') (linked, renewed) (sock, res, sets, inr ((q, e), n)) =
      absurd (none-ne-some q e)
  judge-Kept a s (none, s') (linked, renewed) (sock, res, sets, inl (e, n, v)) =
      elim (Bool-cases (leb 5 (s'.nfail + 1) && s'.valid)) [
        | inl out ↦
            rw out ((after_Linked s s' linked sock res, inl refl), ground (arith, ap length sets))
        | inr still ↦
            rw still
              ((after_Linked s s' linked sock res, ground arith), ground (arith, ap length sets))
      ]
