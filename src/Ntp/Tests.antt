-- ===== src/Ntp/Tests.antt =====
-- Runs of NTPClient, with whole numbers for floating point.
use camannex.Base.{
  ◌+◌, ◌*◌, ◌≡◌, refl, List, [], ◌∷◌, ◌++◌, Bytes, codes, true, false, none, some, if◌then◌else◌,
  replicate, ◌==◌, arith, map, inl, inr,
}
use camannex.Base.Int.{ℤ, pos, ◌+ℤ◌, ◌-ℤ◌, sub_ℕ, leb_ℤ, ltb_ℤ, eqb_ℤ, pos_part, neg_part}
use camannex.Base.Real.{Real}
use camannex.Ntp.{TimeVal}
use camannex.Ntp.Client.{Answers, Ntp, init}
use camannex.Ntp.Steps.{IsSound}
use camannex.Ntp.Validity.{
  Event, calls_synch_clock, calls_enable_auto_synch, calls_set_host, goes_round, run,
}
use camannex.Ntp.Failures.{IsUnanswered, run_unanswered}

-- Whole numbers; what is divided is dropped.
abbrev pub whole : Real
whole = record {
  R = ℤ;
  add = ◌+ℤ◌;
  sub = ◌-ℤ◌;
  mul = λ a b.
      sub_ℕ (pos_part a * pos_part b + neg_part a * neg_part b)
        (pos_part a * neg_part b + neg_part a * pos_part b);
  div = λ a b. pos 0;
  neg = λ a. sub_ℕ (neg_part a) (pos_part a);
  of_int = λ a. a;
  trunc = λ a. a;
  literal = λ m k. if k == 0 then pos m else pos 0;
  leb = leb_ℤ;
  ltb = ltb_ℤ;
  eqb = eqb_ℤ;
}

abbrev noon : TimeVal
noon = record { sec = 1477699200; usec = 500000 }

abbrev client : Ntp whole
client = init whole (codes "10.0.0.1") 123 (pos 5) [] []

abbrev lost : Answers
lost = record {
  lookup = some 9;
  socket = some 4;
  sent = true;
  ready = false;
  received = none;
  at_request = noon;
  at_answer = noon;
  at_synch = noon;
}

-- A reply of 48 bytes whose identifier is GPS.
abbrev bytes : Bytes
bytes = replicate 12 1 ++ (codes "GPS" ++ 0 ∷ replicate 32 200)

abbrev answered : Answers
answered = record lost { ready = true; received = some bytes }

abbrev day : List (Event whole)
day =
    calls_enable_auto_synch true
    ∷ goes_round lost
    ∷ goes_round answered
    ∷ calls_synch_clock noon
    ∷ calls_set_host (codes "10.0.0.2") 123
    ∷ goes_round lost
    ∷ []

-- An offset that is valid, of three seconds.
abbrev drifting : Ntp whole
drifting = record client { valid = true; offset = pos 3; nfail = 2 }

drifting-IsSound : IsSound whole drifting
unfolding init
drifting-IsSound = (tt, inr (omega arith))

lost_quiet : IsUnanswered lost
lost_quiet = ((9, refl), (4, refl), inr (inl refl))

run_unanswered_example :
    (s' : Ntp whole) × (run whole (map goes_round (lost ∷ lost ∷ lost ∷ lost ∷ lost ∷ [])) drifting
      ≡ some s')
    × (s'.valid ≡ false)
    × (s'.nfail ≡ 7)
unfolding init
run_unanswered_example =
    run_unanswered whole (lost ∷ lost ∷ lost ∷ lost ∷ lost ∷ []) drifting
      (lost_quiet, (lost_quiet, (lost_quiet, (lost_quiet, (lost_quiet, tt)))))
      (tt, (tt, (tt, (tt, (tt, tt))))) drifting-IsSound (omega arith)

abbrev unknown : Answers
unknown = record lost { lookup = none }
