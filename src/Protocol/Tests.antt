-- ===== src/Protocol/Tests.antt =====
-- Runs of the protocol with functions on strings that have the properties of boost's.
use camannex.Base.{
  ℕ, ◌≡◌, ◌≢◌, refl, List, [], ◌∷◌, ◌++◌, Bytes, codes, if◌then◌else◌, ◌==◌, arith, All, eq_bytes,
  length, length-append, some, get_or, ◌<◌, false, ◌&&◌, inl,
}
use camannex.Protocol.Boost.{Strings, Plain, EndsInAlnum}
use camannex.Protocol.{
  Cooler, Output, init, cooler_text, join_kv, compact_cooler, resolve, a_cooler,
}
use camannex.Protocol.Lines.{shown_cooler, resolve-compact_cooler}

pub grow : ℕ → List Bytes → List Bytes
grow c [] = (c ∷ []) ∷ []
grow c (t ∷ ts) = (c ∷ t) ∷ ts

-- Every separator ends a token.
pub cut : ℕ → Bytes → List Bytes
cut sep [] = [] ∷ []
cut sep (c ∷ cs) = let rest = cut sep cs in if c == sep then [] ∷ rest else grow c rest

pub cut_last : (sep : ℕ) (xs : Bytes) → All (λ c. c ≢ sep) xs → cut sep xs ≡ xs ∷ []
unfolding cut grow
cut_last sep [] h = refl
cut_last sep (x ∷ xs) (h, hs) = ground (arith, cut_last sep xs hs)

pub cut_first :
    (sep y : ℕ) (xs ys : Bytes)
    → All (λ c. c ≢ sep) xs
    → y ≢ sep
    → cut sep (xs ++ sep ∷ y ∷ ys) ≡ xs ∷ cut sep (y ∷ ys)
unfolding cut grow
cut_first sep y [] ys h ne = ground arith
cut_first sep y (x ∷ xs) ys (h, hs) ne = ground (arith, cut_first sep y xs ys hs ne)

-- The commas at the end are cut off.
abbrev pub trim_commas : Bytes → Bytes
trim_commas [] = []
trim_commas (c ∷ cs) =
    let rest = trim_commas cs in if length rest == 0 && c == 44 then [] else c ∷ rest

trim_commas_text :
    (ys : Bytes) → EndsInAlnum ys → (trim_commas (ys ++ 44 ∷ []) ≡ ys) × (0 < length ys)
trim_commas_text [] h = absurd h
trim_commas_text (c ∷ []) h = (ground arith, ground arith)
trim_commas_text (c ∷ d ∷ cs) h =
    let (e, n) = trim_commas_text (d ∷ cs) h in (rw e (ground arith), ground arith)

pub trim_commas_lem :
    (xs ys : Bytes) → EndsInAlnum ys → trim_commas (xs ++ ys ++ 44 ∷ []) ≡ xs ++ ys
trim_commas_lem [] ys h = (trim_commas_text ys h).0
trim_commas_lem (x ∷ xs) ys h =
    let n = (trim_commas_text ys h).1 in
    let more : (length (xs ++ ys) == 0) ≡ false = ground (arith, length-append xs ys) in
    rw (trim_commas_lem xs ys h) (rw more refl)

-- Every number has the text `1`.
abbrev pub plain_strings : Strings
plain_strings = record {
  Single = ℕ;
  flt_min = 0;
  show = λ n. b'1' ∷ [];
  atof = length;
  trim = λ xs. xs;
  trim_end = trim_commas;
  split = cut;
  iequals = eq_bytes;
  show_plain = λ n. ((omega arith, (λ e. absurd (omega arith)), (λ e. absurd (omega arith))), tt);
  show_end = λ n. inl (omega arith, omega arith);
  trim_end_comma = trim_commas_lem;
  trim_visible = λ xs h. refl;
  split_last = cut_last;
  split_first = cut_first;
  iequals_lower = λ xs ys h k. refl;
}

abbrev report : Cooler plain_strings
report = record {
  utc = codes "T";
  gid = codes "G";
  uid = codes "U";
  cid = codes "C";
  voltage = 1;
  current = 1;
  hotend = 1;
  coolget = 1;
  coolset = 1;
}

text_of : (c : ℕ) → 64 < c → c < 91 → Plain (c ∷ [])
text_of c a b = ((omega arith, (λ e. absurd (ground arith)), (λ e. absurd (ground arith))), tt)

resolve-compact_cooler_example :
    (s' : Output) × (line : Bytes) × (compact_cooler plain_strings (some report) init
      ≡ some (some 0, s'))
    × (get_or s'.buff 0 [] ≡ line ++ 10 ∷ 0 ∷ [])
    × (resolve plain_strings line ≡ a_cooler (shown_cooler plain_strings report))
unfolding init cooler_text join_kv
resolve-compact_cooler_example =
    resolve-compact_cooler plain_strings report init (text_of b'T' (omega arith) (omega arith))
      (text_of b'G' (omega arith) (omega arith)) (text_of b'U' (omega arith) (omega arith))
      (text_of b'C' (omega arith) (omega arith)) (omega arith) (omega arith, refl)
