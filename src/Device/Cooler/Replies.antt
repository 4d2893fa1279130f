-- ===== src/Device/Cooler/Replies.antt =====
-- A reply of a cooler on its way from the port to the records: ControllerBase::serial_read with the
-- search and the reading of SerialComm and CoolerCtl::decode_data.
use camannex.Base.{
  ℕ, zero, suc, ◌+◌, ◌/◌, ◌%◌, ◌-◌, ◌*◌, ◌≤◌, ◌<◌, ◌≡◌, ◌≢◌, refl, sym, ap, ◌∙◌, List, [], ◌∷◌,
  ◌++◌, append_assoc, Bytes, arith, true, false, some, rest_of, leb, length, drop, get_or,
  length-append, ltb,
}
use camannex.Base.Int.{pos, ◌-ℤ◌, ◌+ℤ◌}
use camannex.Buffer.{CircularBuffer}
use camannex.Search.Framing.{Lacks, get_or-Lacks, get_or-append, find_flag_behind}
use camannex.Serial.{Serial, lookup, read}
use camannex.Serial.Receive.{read_lem, guard_passes}
use camannex.Frame.Cooler.{read_frame, text}
use camannex.Frame.Cooler.RoundTrip.{IsAscii, read_frame-layout}
use camannex.Frame.Cooler.Layout.{take-append_self, head_part, check_of}
use camannex.Frame.Hex.{hex_digit}
use camannex.Controller.Virtual.{Directive}
use camannex.Frame.Cooler.OnLine.{frame, body, length-body, frame-body, body-Lacks}
use camannex.Controller.Line.{Controller, take_frame, handle_frame}
use camannex.Device.Float.{Float, c_str}
use camannex.Device.Records.{update_device}
use camannex.Device.Cooler.{CoolerData, numbered, store, cooler, decode_data}

drop-append_self : (n : ℕ) (xs ys : Bytes) → n ≡ length xs → drop n (xs ++ ys) ≡ ys
drop-append_self n [] ys e = let none_dropped : n ≡ 0 = e in rw none_dropped
drop-append_self zero (x ∷ xs) ys e = absurd (omega arith)
drop-append_self (suc n) (x ∷ xs) ys e = drop-append_self n xs ys (omega arith)

module _ (cb : CircularBuffer) where
  open cb use {items}

  -- The lead of a frame behind noise that holds none.
  lookup_head :
      (junk rest : Bytes) (s : Serial cb)
      → Lacks 58 junk
      → items s.crcrcv ≡ junk ++ 58 ∷ rest
      → lookup cb (some (58 ∷ [])) (pos 1) (pos 0) s ≡ pos (length junk)
  unfolding lookup
  lookup_head junk rest s clean e = rw e (
      find_flag_behind 58 [] junk rest 0 (λ n l h. get_or-Lacks 58 junk (58 ∷ rest) n clean h)
        (omega arith))

  -- The end of a frame, from its lead on.
  lookup_tail :
      (junk front rest : Bytes) (s : Serial cb)
      → Lacks 13 front
      → items s.crcrcv ≡ (junk ++ front) ++ 13 ∷ 10 ∷ rest
      → lookup cb (some (13 ∷ 10 ∷ [])) (pos 2) (pos (length junk)) s
        ≡ pos (length junk + length front)
  unfolding lookup
  lookup_tail junk front rest s clean e =
      let behind : (n : ℕ)
          → length junk ≤ n
          → n < length (junk ++ front)
          → get_or ((junk ++ front) ++ 13 ∷ 10 ∷ rest) n 0 ≢ 13 =
        λ n l h.
          rw
            (
              append_assoc junk front (13 ∷ 10 ∷ rest),
              get_or-append junk (front ++ 13 ∷ 10 ∷ rest) n (n - length junk) (omega arith),
            )
            (get_or-Lacks 13 front (13 ∷ 10 ∷ rest) (n - length junk) clean
              (omega (arith, length-append junk front))) in
      rw (guard_passes 2 (length junk) (omega arith), e, sym (length-append junk front))
        (find_flag_behind 13 (10 ∷ []) (junk ++ front) rest (length junk) behind
          (omega (arith, length-append junk front)))

  -- What Read takes out of the buffer, where a frame stands in it.
  read_there :
      (junk there rest : Bytes) (s : Serial cb)
      → 0 < length there
      → items s.crcrcv ≡ junk ++ (there ++ rest)
      → let (out, s') = read cb (pos (length there)) (pos (length junk)) s in
        (out ≡ there) × (items s'.crcrcv ≡ rest)
  read_there junk there rest s h e =
      let (out, after) = read_lem cb (length there) (length junk) s h in
      let inside : ltb (length junk) (length (junk ++ (there ++ rest))) ≡ true =
        ground (arith, length-append junk (there ++ rest), length-append there rest) in
      (
        out
            ∙ rw (e, drop-append_self (length junk) junk (there ++ rest) refl)
                (take-append_self (length there) there rest refl),
        after
            ∙ rw (e, inside, sym (append_assoc junk there rest))
                (drop-append_self (length junk + length there) (junk ++ there) rest
                  (sym (length-append junk there))),
      )

  -- handle_frame, once both searches have their answers.
  handle_frame_at :
      (C : Type 0) (fl : Float) (unset : fl.Double) (s : Serial cb)
      (c : Controller cb C (CoolerData fl.Double)) (a m : ℕ)
      → lookup cb (some (58 ∷ [])) (pos 1) (pos 0) s ≡ pos a
      → lookup cb (some (13 ∷ 10 ∷ [])) (pos 2) (pos a) s ≡ pos (a + m)
      → 0 < m
      → handle_frame cb (cooler fl unset) s c
        ≡ take_frame cb (cooler fl unset) (pos a) (pos (a + m)) s c
  unfolding handle_frame
  handle_frame_at C fl unset s c a m at_head at_tail h =
      let found : leb 0 (a + 0) ≡ true = ground arith in
      let ends : ltb (a + 0) (a + m + 0) ≡ true = ground arith in rw (at_head, found, at_tail, ends)

  -- take_frame, once the bytes of the frame and what they are decoded to are known.
  take_frame_at :
      (C : Type 0) (fl : Float) (unset : fl.Double) (s : Serial cb)
      (c : Controller cb C (CoolerData fl.Double)) (a m : ℕ) (there : Bytes)
      (ds : List (CoolerData fl.Double))
      → length there ≡ m + 2
      → m ≤ 510
      → (read cb (pos (m + 2)) (pos a) s).0 ≡ there
      → decode_data fl unset (m + 2) (there ++ drop (length there) c.bufrcv) c.drct c.devices
        ≡ some (pos 0, ds)
      → take_frame cb (cooler fl unset) (pos a) (pos (a + m)) s c
        ≡ some (
          record c {
            serial = some (read cb (pos (m + 2)) (pos a) s).1;
            bufrcv = there ++ drop (length there) c.bufrcv;
            devices = ds;
          },
          true,
        )
  unfolding take_frame
  take_frame_at C fl unset s c a m there ds long small out decoded =
      let width : pos (a + m) -ℤ pos a +ℤ pos 2 ≡ pos (m + 2) = ground arith in
      let fits : ltb 512 (length there) ≡ false = ground arith in rw (width, out, fits, decoded)

  decode_text :
      (fl : Float) (unset : fl.Double) (idd idf len : ℕ) (ptr str : Bytes) (drct : List Directive)
      (ds : List (CoolerData fl.Double))
      → read_frame len ptr ≡ text idd idf str
      → decode_data fl unset len ptr drct ds
        ≡ some (pos 0, update_device (numbered fl) idd (store fl idf (fl.atof (c_str str))) ds)
  unfolding decode_data
  decode_text fl unset idd idf len ptr str drct ds e = rw (e, decode_data)

  decode_frame :
      (fl : Float) (unset : fl.Double) (idd idf c1 : ℕ) (cs rest : Bytes) (drct : List Directive)
      (ds : List (CoolerData fl.Double))
      → idd < 256
      → idf < 256
      → IsAscii (c1 ∷ cs)
      → decode_data fl unset (9 + 2 * length (c1 ∷ cs)) (frame idd idf (c1 ∷ cs) ++ rest) drct ds
        ≡ some
            (pos 0, update_device (numbered fl) idd (store fl idf (fl.atof (c_str (c1 ∷ cs)))) ds)
  decode_frame fl unset idd idf c1 cs rest drct ds hd hf ha =
      let value : Bytes = c1 ∷ cs in
      let check : ℕ = check_of idd idf value in
      let digits : Bytes = hex_digit (check / 16) ∷ hex_digit (check % 16) ∷ [] in
      rw
        (
          frame-body idd idf value,
          append_assoc (body idd idf value) (13 ∷ 10 ∷ []) rest,
          append_assoc (head_part idd idf value) digits (13 ∷ 10 ∷ rest),
        )
        (decode_text fl unset idd idf _ _ value drct ds
          (read_frame-layout idd idf value (digits ++ 13 ∷ 10 ∷ rest) hd hf ha))

  -- A reply to `idf` of device `idd`, whose text is ASCII, not empty and at most 251 characters long.
  -- Where it stands in the receive buffer behind noise without a colon, handle_frame takes it and
  -- wakes thread_respond: it removes the noise and the frame and leaves what follows, stores the
  -- number that the text denotes in the record of that device, and changes no directive.
  pub handle_frame-reply :
      (C : Type 0) (fl : Float) (unset : fl.Double) (idd idf : ℕ) (c1 : ℕ) (cs junk rest : Bytes)
      (s : Serial cb) (c : Controller cb C (CoolerData fl.Double))
      → idd < 256
      → idf < 256
      → IsAscii (c1 ∷ cs)
      → length cs ≤ 250
      → Lacks 58 junk
      → items s.crcrcv ≡ junk ++ (frame idd idf (c1 ∷ cs) ++ rest)
      → let there = frame idd idf (c1 ∷ cs) in
        let s' = (read cb (pos (length there)) (pos (length junk)) s).1 in
        (handle_frame cb (cooler fl unset) s c
          ≡ some (
            record c {
              serial = some s';
              bufrcv = there ++ drop (length there) c.bufrcv;
              devices =
                  update_device
                    (numbered fl)
                    idd
                    (store fl idf (fl.atof (c_str (c1 ∷ cs))))
                    c.devices;
            },
            true,
          ))
        × (items s'.crcrcv ≡ rest)
  handle_frame-reply C fl unset idd idf c1 cs junk rest s c hd hf ha hl hj e =
      let value : Bytes = c1 ∷ cs in
      let there : Bytes = frame idd idf value in
      let front : Bytes = body idd idf value in
      let shape : there ≡ front ++ 13 ∷ 10 ∷ [] = frame-body idd idf value in
      let size = length-body idd idf value in
      let long : length there ≡ 9 + 2 * length value =
        (ap length shape ∙ length-append front (13 ∷ 10 ∷ [])) ∙ omega (arith, size) in
      let whole : items s.crcrcv ≡ (junk ++ front) ++ 13 ∷ 10 ∷ rest =
        e
        ∙ (ap (λ f. junk ++ (f ++ rest)) shape
            ∙ rw (append_assoc front (13 ∷ 10 ∷ []) rest)
                (sym (append_assoc junk front (13 ∷ 10 ∷ rest)))) in
      let at_head =
        lookup_head junk (rest_of front ++ 13 ∷ 10 ∷ rest) s hj
          (whole ∙ append_assoc junk front (13 ∷ 10 ∷ rest)) in
      let at_tail = lookup_tail junk front rest s (body-Lacks idd idf value hd hf ha) whole in
      let taken = read_there junk there rest s (omega (arith, long)) e in
      let same : length front + 2 ≡ length there = omega (arith, long, size) in
      let decoded : decode_data fl unset (length front + 2) (there ++ drop (length there) c.bufrcv)
            c.drct c.devices
          ≡ some (
            pos 0,
            update_device (numbered fl) idd (store fl idf (fl.atof (c_str value))) c.devices,
          ) =
        rw (same ∙ long) (
          decode_frame fl unset idd idf c1 cs (drop (length there) c.bufrcv) c.drct c.devices hd hf
            ha) in
      let out : (read cb (pos (length front + 2)) (pos (length junk)) s).0 ≡ there =
        rw same taken.0 in
      (
        handle_frame_at C fl unset s c (length junk) (length front) at_head at_tail
              (omega (arith, size))
            ∙ rw same at (
                take_frame_at C fl unset s c (length junk) (length front) there _ (sym same)
                  (omega (arith, size)) out decoded),
        taken.1,
      )
