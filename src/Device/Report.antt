-- ===== src/Device/Report.antt =====
-- How CoolerCtl and VacuumCtl hand a line to the network: a line of AsciiProtocol goes to TCPClient.
pub mod Tests
use camannex.Base.{
  ℕ, ◌+◌, ◌-◌, ◌<◌, ◌≤◌, ◌≡◌, refl, ◌∙◌, List, [], ◌∷◌, ◌++◌, Bytes, Bool, true, false, Option,
  none, some, if◌then◌else◌, ◌==◌, ltb, ◌>>=◌, All, length, take, get_or, arith, length-append,
  take-append_le, take-length, get_or-set, append_assoc, append-nil, rest_of, subst, sym,
  Bool-cases, inl, inr, min,
}
use camannex.Base.Int.{pos}
use camannex.Buffer.{CircularBuffer}
use camannex.Buffer.Push.{push_all, push_all_room, capacity-push_all}
use camannex.Tcp.{Client, write, start_write}
use camannex.Protocol.Boost.{Strings}
use camannex.Protocol.{Output, line_of, stored, output_compacted}
use camannex.Protocol.Slots.{Stores, stored-Stores}

-- The text that a pointer to a store stands for, without its zero.
unfoldable pub line_text : Option ℕ → Output → Option Bytes
line_text none out = none
line_text (some i) out = let line = get_or out.buff i [] in some (take (length line - 1) line)

-- The count that CompactCooler stores in `len`.
abbrev pub text_length : Option Bytes → ℕ
text_length none = 0
text_length (some t) = length t

module _ (cb : CircularBuffer) where
  open cb use {items, capacity}

  -- `tcp_->Write(tosend, len)`. `sent` is what a socket without buffer takes.
  unfoldable pub hand_over : Option ℕ → Output → ℕ → Client cb → Client cb
  unfolding line_text write
  hand_over line out sent s =
      let text = line_text line out in (write cb text (pos (text_length text)) sent s).1

  module _ (st : Strings) where
    open st use {trim_end}

    -- A line as the server receives it.
    abbrev pub sent_line : Bytes → Bytes
    sent_line text = trim_end text ++ 10 ∷ []

    line_text-stored :
        (text : Bytes) (out : Output)
        → Stores st out
        → line_text (some out.ibuf) (stored st text out) ≡ some (sent_line text)
    unfolding stored line_text
    line_text-stored text out (b, size) =
        rw
          (
            get_or-set out.buff out.ibuf out.ibuf (trim_end text ++ 10 ∷ 0 ∷ []) [] (omega arith),
            same,
            line,
          )
          (rw
            (
              len,
              take-append_le (length (sent_line text)) (sent_line text) (0 ∷ []) (omega arith),
              take-length (length (sent_line text)) (sent_line text) (omega arith),
            )
            refl)
      where
        same : (out.ibuf == out.ibuf) ≡ true
        same = ground arith

        line : trim_end text ++ 10 ∷ 0 ∷ [] ≡ sent_line text ++ 0 ∷ []
        line = rw append_assoc refl

        len : length (sent_line text ++ 0 ∷ []) - 1 ≡ length (sent_line text)
        len = omega (arith, length-append (sent_line text) (0 ∷ []))

    start_write-keeps :
        (s : Client cb)
        → ((start_write cb s).crcsnd ≡ s.crcsnd) × ((start_write cb s).usebuf ≡ s.usebuf)
    unfolding start_write
    start_write-keeps s = (ground arith, ground arith)

    -- With room in the buffer, a text is appended to what waits there.
    abbrev pub Appends : Bytes → Client cb → Client cb → Type 0
    Appends xs s s' =
        (items s'.crcsnd ≡ items s.crcsnd ++ xs)
        × (capacity s'.crcsnd ≡ capacity s.crcsnd)
        × (s'.usebuf ≡ true)

    write-Appends :
        (xs : Bytes) (sent : ℕ) (s : Client cb)
        → 0 < length xs
        → s.usebuf ≡ true
        → length (items s.crcsnd) + length xs ≤ capacity s.crcsnd
        → Appends xs s (write cb (some xs) (pos (length xs)) sent s).1
    unfolding write
    write-Appends xs sent s some_text buf room =
        let step : (write cb (some xs) (pos (length xs)) sent s).1
            ≡ (if length (items s.crcsnd) == 0 then start_write cb s' else s') =
          ground (arith, whole) in
        subst (Appends xs s) (sym step) (elim (Bool-cases (length (items s.crcsnd) == 0)) [
          | inl none_waits ↦
              rw none_waits (rw ((start_write-keeps s').0, (start_write-keeps s').1) appended)
          | inr some_wait ↦ rw some_wait appended
        ])
      where
        s' : Client cb
        s' = record s { crcsnd = push_all cb s.crcsnd xs }

        whole : take (min (capacity s.crcsnd - length (items s.crcsnd)) (length xs)) xs ≡ xs
        whole = take-length _ xs (omega arith)

        appended : Appends xs s s'
        appended = (push_all_room cb s.crcsnd xs room, capacity-push_all cb s.crcsnd xs, buf)

    pub hand_over-Appends :
        (text : Bytes) (out : Output) (sent : ℕ) (s : Client cb)
        → Stores st out
        → s.usebuf ≡ true
        → length (items s.crcsnd) + length (sent_line text) ≤ capacity s.crcsnd
        → Appends (sent_line text) s (hand_over (some out.ibuf) (stored st text out) sent s)
    unfolding hand_over
    hand_over-Appends text out sent s v buf room =
        subst (λ o. Appends (sent_line text) s (write cb o (pos (text_length o)) sent s).1)
          (sym (line_text-stored text out v))
          (write-Appends (sent_line text) sent s
            (omega (arith, length-append (trim_end text) (10 ∷ []))) buf room)

    Appends-trans :
        (xs ys : Bytes) (s s1 s2 : Client cb)
        → Appends xs s s1
        → Appends ys s1 s2
        → Appends (xs ++ ys) s s2
    Appends-trans xs ys s s1 s2 (i, c, u) (j, d, w) = (j ∙ (rw (i, append_assoc) refl), d ∙ c, w)

    -- The lines for these texts, one after the other.
    unfoldable pub report_all :
        List Bytes → List ℕ → Output × Client cb → Option (Output × Client cb)
    unfolding output_compacted
    report_all [] sent (out, s) = some (out, s)
    report_all (t ∷ ts) sent (out, s) = output_compacted st t out >>= λ r.
        report_all ts (rest_of sent) (r.1, hand_over (some r.0) r.1 (get_or sent 0 0) s)

    -- What the server receives for them.
    unfoldable pub sent_lines : List Bytes → Bytes
    sent_lines [] = []
    sent_lines (t ∷ ts) = sent_line t ++ sent_lines ts

    -- The line of a text, with its zero, has room in a store.
    abbrev pub Short : Bytes → Type 0
    Short t = length (line_of st t) ≤ 1024

    output_compacted-stored :
        (t : Bytes) (out : Output)
        → Short t
        → output_compacted st t out ≡ some (out.ibuf, stored st t out)
    unfolding output_compacted
    output_compacted-stored t out h =
        let fits : ltb 1024 (length (line_of st t)) ≡ false = ground arith in rw fits refl

    pub report_all-Appends :
        (ts : List Bytes) (sent : List ℕ) (out : Output) (s : Client cb)
        → All Short ts
        → Stores st out
        → s.usebuf ≡ true
        → length (items s.crcsnd) + length (sent_lines ts) ≤ capacity s.crcsnd
        → (r : Output × Client cb) × (report_all ts sent (out, s) ≡ some r)
          × Appends (sent_lines ts) s r.1
    unfolding report_all sent_lines
    report_all-Appends [] sent out s short v buf room =
        ((out, s), refl, (rw append-nil refl, refl, buf))
    report_all-Appends (t ∷ ts) sent out s (fits, short) v buf room =
        let out' = stored st t out in
        let s1 = hand_over (some out.ibuf) out' (get_or sent 0 0) s in
        let first : Appends (sent_line t) s s1 =
          hand_over-Appends t out (get_or sent 0 0) s v buf
            (omega (arith, length-append (sent_line t) (sent_lines ts))) in
        let (r, e, more) =
          report_all-Appends ts (rest_of sent) out' s1 short (stored-Stores st t out v) first.2 (
            rw (first.0, first.1)
              (omega (
                arith,
                length-append (items s.crcsnd) (sent_line t),
                length-append (sent_line t) (sent_lines ts),
              ))) in
        (
          r,
          rw (output_compacted-stored t out fits) e,
          Appends-trans (sent_line t) (sent_lines ts) s s1 r.1 first more,
        )
