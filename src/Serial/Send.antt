-- ===== src/Serial/Send.antt =====
-- What is written to the port, from SerialComm::Write to the device.
use camannex.Base.{
  ℕ, zero, suc, ◌+◌, ◌-◌, ◌≤◌, ◌≡◌, ◌≢◌, ◌⊎◌, refl, sym, ap, ◌∙◌, List, [], ◌∷◌, ◌++◌, append_assoc,
  append-nil, Bytes, some, arith, min, length, take, rest_of, drop, length-take, length-append,
  length-ne-zero, append-ne-nil, if_same, inl, inr, Bool-cases, not, ◌||◌, ◌==◌, if◌then◌else◌,
}
use mathlib.Core.List.{cons-ne-nil}
use camannex.Base.Int.{ℤ, pos, pos_part, leb_ℤ}
use camannex.Buffer.{CircularBuffer}
use camannex.Buffer.Push.{push_all, push_all_room}
use camannex.Serial.{Serial, success, write, handle_write, start_write}

take_front : (n : ℕ) (w more : Bytes) → n ≤ length w → w ++ more ≡ take n w ++ drop n (w ++ more)
take_front zero w more h = refl
take_front (suc n) [] more h = absurd (omega arith)
take_front (suc n) (x ∷ w) more h = ap (◌∷◌ x) (take_front n w more (omega arith))

module _ (cb : CircularBuffer) where
  open cb use {Buf, items, capacity, erase_begin, items-le, items-erase_begin, capacity-erase_begin}

  -- The port with the bytes that Write took so far and those that the device received.
  pub record Line : Type 0 where
    pub port : Serial cb
    pub accepted : Bytes
    pub delivered : Bytes

  -- A call of Write by the program, or the end of the write that waits: the device received `n`
  -- of its bytes, and boost::asio calls handle_write.
  pub data Event : Type 0 where
    writes : (buff : Bytes) (len : ℤ) → Event
    sent : (n : ℕ) → Event

  abbrev pub head_write : List Bytes → Bytes
  head_write [] = []
  head_write (w ∷ ws) = w

  unfoldable pub advance : Line → Event → Line
  advance l (writes buff len) =
      let (n, port') = write cb (some buff) len l.port in
      record { port = port'; accepted = l.accepted ++ take n buff; delivered = l.delivered }
  advance l (sent n) = record {
    port = handle_write cb (λ v s. s) success n l.port;
    accepted = l.accepted;
    delivered = l.delivered ++ take n (head_write l.port.writes);
  }

  -- A write ends only if it waits, with at most its own bytes delivered.
  abbrev pub Enabled : Line → Event → Type 0
  Enabled l (writes buff len) = Unit {0}
  Enabled l (sent n) = (l.port.writes ≢ []) × (n ≤ length (head_write l.port.writes))

  -- One write waits while the buffer holds bytes, and none else; its bytes stand in front of the
  -- buffer. What Write took is what the device received, with the buffer behind.
  pub record Inv (l : Line) : Type 0 where
    pub kept : l.accepted ≡ l.delivered ++ items l.port.crcsnd
    pub waiting :
        ((l.port.writes ≡ []) × (items l.port.crcsnd ≡ []))
        ⊎ ((w : Bytes) × (more : Bytes) × (l.port.writes ≡ w ∷ [])
            × (w ≢ [])
            × (items l.port.crcsnd ≡ w ++ more))

  -- The write that start_write starts, if the buffer holds a byte.
  abbrev pub started : Bytes → List Bytes
  started [] = []
  started (x ∷ xs) = (x ∷ xs) ∷ []

  pub writes-start_write :
      (s : Serial cb) → (start_write cb s).writes ≡ s.writes ++ started (items s.crcsnd)
  unfolding start_write
  writes-start_write s = split (items s.crcsnd)
    where
      split :
          (xs : Bytes)
          → (if not (length xs == 0) then record s { writes = s.writes ++ xs ∷ [] } else s).writes
            ≡ s.writes ++ started xs
      split [] = sym (append-nil s.writes)
      split (x ∷ xs) = ground arith

  pub crcsnd-start_write : (s : Serial cb) → (start_write cb s).crcsnd ≡ s.crcsnd
  unfolding start_write
  crcsnd-start_write s = ground arith

  -- Write adds the bytes that it takes behind those that wait.
  pub items-write :
      (buff : Bytes) (len : ℤ) (s : Serial cb)
      → let (n, s') = write cb (some buff) len s in items s'.crcsnd ≡ items s.crcsnd ++ take n buff
  unfolding write
  items-write buff len s =
      let n = min (capacity s.crcsnd - length (items s.crcsnd)) (pos_part len) in
      let fits : length (items s.crcsnd) + length (take n buff) ≤ capacity s.crcsnd =
        omega (arith, items-le s.crcsnd, length-take n buff) in
      ground (arith, push_all_room cb s.crcsnd (take n buff) fits, append-nil (items s.crcsnd))

  pub writes-write :
      (buff : Bytes) (len : ℤ) (s : Serial cb)
      → let (n, s') = write cb (some buff) len s in
        ((items s.crcsnd ≡ []) → s'.writes ≡ s.writes ++ started (items s'.crcsnd))
        × ((items s.crcsnd ≢ []) → s'.writes ≡ s.writes)
  unfolding write
  writes-write buff len s =
      let n = min (capacity s.crcsnd - length (items s.crcsnd)) (pos_part len) in
      let s' = record s { crcsnd = push_all cb s.crcsnd (take n buff) } in
      elim (Bool-cases (leb_ℤ len (pos 0) || not s.is_open)) [
        | inl refused ↦ rw refused (λ e. rw e (sym (append-nil s.writes)), λ _. refl)
        | inr taken ↦ rw taken (
          λ e. rw (ap (λ xs. length xs == 0) e) (
              writes-start_write s'
              ∙ ap (λ b. s.writes ++ started (items b)) (sym (crcsnd-start_write s'))),
          λ ne. rw (length-ne-zero (items s.crcsnd) ne),
        )
      ]

  module _ (s : Serial cb) (n : ℕ) (fits : n ≤ length (items s.crcsnd)) where
    -- The end of a write removes the bytes that were delivered, and starts the next write with
    -- all that are left.
    items-handle_write :
        items (handle_write cb (λ v t. t) success n s).crcsnd ≡ drop n (items s.crcsnd)
    unfolding handle_write
    items-handle_write =
        rw (if_same s.cbsnd) (ap items (crcsnd-start_write _) ∙ items-erase_begin s.crcsnd n fits)

    writes-handle_write :
        (handle_write cb (λ v t. t) success n s).writes
        ≡ rest_of s.writes ++ started (drop n (items s.crcsnd))
    unfolding handle_write
    writes-handle_write = rw (if_same s.cbsnd) (
        writes-start_write _
        ∙ ap (λ xs. rest_of s.writes ++ started xs) (items-erase_begin s.crcsnd n fits))

  abbrev pub Waiting : Serial cb → Type 0
  Waiting s =
      ((s.writes ≡ []) × (items s.crcsnd ≡ []))
      ⊎ ((w : Bytes) × (more : Bytes) × (s.writes ≡ w ∷ [])
          × (w ≢ [])
          × (items s.crcsnd ≡ w ++ more))

  started_waits :
      (xs : Bytes) (s : Serial cb) → s.writes ≡ started xs → items s.crcsnd ≡ xs → Waiting s
  started_waits [] s e f = inl (e, f)
  started_waits (x ∷ xs) s e f =
      inr (x ∷ xs, [], e, cons-ne-nil x xs, f ∙ sym (append-nil (x ∷ xs)))

  pub advance-Inv : (l : Line) (e : Event) → Enabled l e → Inv l → Inv (advance l e)
  unfolding advance
  advance-Inv l (writes buff len) h v =
      let (n, s') = write cb (some buff) len l.port in
      let more = items-write buff len l.port in
      record {
        kept = rw (more, v.kept) (append_assoc l.delivered (items l.port.crcsnd) (take n buff));
        waiting = elim v.waiting [
          | inl (e, none_left) ↦
              started_waits (items s'.crcsnd) s'
                ((writes-write buff len l.port).0 none_left
                  ∙ ap (λ ws. ws ++ started (items s'.crcsnd)) e)
                refl
          | inr (w, rest, e, ne, front) ↦ inr (
            w,
            rest ++ take n buff,
            (writes-write buff len l.port).1 (rw front (append-ne-nil w rest ne)) ∙ e,
            ne,
            more ∙ rw front (append_assoc w rest (take n buff)),
          )
        ];
      }
  advance-Inv l (sent n) (h0, h1) v = elim v.waiting [
    | inl (e, none_left) ↦ absurd (h0 e)
    | inr (w, more, e, ne, front) ↦
        let xs = items l.port.crcsnd in
        let head : head_write l.port.writes ≡ w = ap head_write e in
        let small : n ≤ length w = rw (ap length head) at h1 in
        let fits : n ≤ length xs = omega (arith, ap length front, length-append w more) in
        record {
          kept =
              rw (head, items-handle_write l.port n fits, v.kept)
                (ap (◌++◌ l.delivered) (rw front (take_front n w more small))
                  ∙ sym (append_assoc l.delivered (take n w) (drop n xs)));
          waiting =
              started_waits (drop n xs) (handle_write cb (λ v s. s) success n l.port)
                (writes-handle_write l.port n fits ∙ ap (λ ws. rest_of ws ++ started (drop n xs)) e)
                (items-handle_write l.port n fits);
        }
  ]

  -- The lines that a sequence of calls and completed writes can lead to.
  pub data Reach (l : Line) : Line → Type 0 where
    here : Reach l l
    next : {m : Line} → Reach l m → (e : Event) → Enabled m e → Reach l (advance m e)

  -- Nothing was written, and nothing waits.
  abbrev pub IsIdle : Line → Type 0
  IsIdle l =
      (l.accepted ≡ []) × (l.delivered ≡ []) × (l.port.writes ≡ []) × (items l.port.crcsnd ≡ [])

  pub Reach-Inv : {l m : Line} → IsIdle l → Reach l m → Inv m
  Reach-Inv {l} (a, d, w, i) here = record { kept = rw (a, d, i); waiting = inl (w, i) }
  Reach-Inv idle (next {m} r e h) = advance-Inv m e h (Reach-Inv idle r)

  -- From an idle port, for any sequence of calls of Write and of writes that end without error, in
  -- whatever pieces the device takes the bytes: what Write took is what the device received followed
  -- by what the buffer holds, so no byte is lost, made up or moved; and either the buffer is empty
  -- and no write waits, or exactly one write waits, of bytes at the front of the buffer.
  pub send_in_order :
      {l m : Line}
      → IsIdle l
      → Reach l m
      → (m.accepted ≡ m.delivered ++ items m.port.crcsnd) × Waiting m.port
  send_in_order {m} idle r = let v : Inv m = Reach-Inv idle r in (v.kept, v.waiting)
