-- ===== src/Tcp/Run.antt =====
-- What a client can come to in a run, from its making on.
use camannex.Base.{
  ℕ, ◌≡◌, refl, List, [], ◌∷◌, Bytes, Bool, true, false, Option, none, some, Option-cases, inl, inr,
  ◌∙◌, ◌<◌, ◌>>=◌, if◌then◌else◌, ◌==◌, arith, All, length, ◌+◌, ◌≤◌, ◌-◌, ◌++◌, drop, rest_of,
}
use camannex.Base.Int.{ℤ, pos, minus_one}
use camannex.Buffer.{CircularBuffer}
use camannex.Serial.Receive.{guard_passes}
use camannex.Search.First.{Answer, first_at, absent}
use camannex.Tcp.Receive.{lookup-received-Answer}
use camannex.Serial.{ErrorCode, value}
use camannex.Buffer.Push.{push_all}
use camannex.Tcp.{
  Client, init, start_read, start_write, connect, async_connect, close, use_buffer, lookup, read,
  register_connect, register_read, register_write, received, write, handle_connect, handle_read,
  handle_write,
}

-- A call of the program, the end of an asynchronous operation, or an end of TCPServer's accept that
-- gives the client its connection and starts its first read.
pub data Step : Type 0 where
  connects : (ec : ErrorCode) (opened : Bool) → Step
  connects_async : (opens : Bool) → Step
  closes : Step
  uses_buffer : (on : Bool) → Step
  reads : (len from : ℤ) → Step
  writes : (buff : Bytes) (len : ℤ) (sent : ℕ) → Step
  registers_connect registers_read registers_write : Step
  accepted : Step
  connected : (ec : ErrorCode) → Step
  arrived : (ec : ErrorCode) (chunk : Bytes) → Step
  delivered : (ec : ErrorCode) (n : ℕ) → Step

-- No flag stands among no bytes.
Answer-nil :
    {flag : Bytes} {len from : ℕ} {r : ℤ} → 0 < len → Answer flag [] len from r → r ≡ minus_one
Answer-nil h (first_at q l o f) = absurd (omega (arith, o.0))
Answer-nil h (absent f) = refl

module _ (cb : CircularBuffer) (on_connect on_read : ℤ → Client cb → Client cb)
    (on_write : ℕ → Client cb → Client cb) where
  -- The client after a step, with any slots. `none`: the operation does not wait.
  unfoldable pub advance : Step → Client cb → Option (Client cb)
  advance (connects ec opened) s = some (connect cb ec opened s).0
  advance (connects_async opens) s = some (async_connect cb opens s)
  advance closes s = some (close cb s)
  advance (uses_buffer on) s = some (use_buffer cb on s)
  advance (reads len from) s = some (read cb len from s).1
  advance (writes buff len sent) s = some (write cb (some buff) len sent s).1
  advance registers_connect s = some (register_connect cb s)
  advance registers_read s = some (register_read cb s)
  advance registers_write s = some (register_write cb s)
  advance accepted s = some (start_read cb (record s { is_open = true }))
  advance (connected ec) s =
      if s.connects == 0 then none else some (handle_connect cb on_connect ec s)
  advance (arrived ec chunk) s =
      if s.reads == 0 then none else some (handle_read cb on_read ec chunk s)
  advance (delivered ec n) s =
      if length s.writes == 0 then none else some (handle_write cb on_write ec n s)

  unfoldable pub run : List Step → Client cb → Option (Client cb)
  run [] s = some s
  run (e ∷ es) s = advance e s >>= run es

  -- No slot sets the number of bytes that were received without a buffer.
  abbrev pub LeavesCount : Type 0
  LeavesCount =
      ((v : ℤ) (t : Client cb) → (on_connect v t).bytercv ≡ t.bytercv)
      × ((v : ℤ) (t : Client cb) → (on_read v t).bytercv ≡ t.bytercv)
      × ((n : ℕ) (t : Client cb) → (on_write n t).bytercv ≡ t.bytercv)

  -- No step sets the number of bytes that were received without a buffer.
  advance-bytercv :
      (e : Step) (s s' : Client cb) → LeavesCount → advance e s ≡ some s' → s'.bytercv ≡ s.bytercv
  unfolding advance connect async_connect close use_buffer read write handle_connect handle_read
      handle_write start_read start_write register_connect register_read register_write
  advance-bytercv (connects ec opened) s s' k e = ground arith
  advance-bytercv (connects_async opens) s s' k e = ground arith
  advance-bytercv closes s s' k e = ground arith
  advance-bytercv (uses_buffer true) s s' k e = ground arith
  advance-bytercv (uses_buffer false) s s' k e = ground arith
  advance-bytercv (reads len from) s s' k e = ground arith
  advance-bytercv (writes buff len sent) s s' k e = ground arith
  advance-bytercv registers_connect s s' k e = ground arith
  advance-bytercv registers_read s s' k e = ground arith
  advance-bytercv registers_write s s' k e = ground arith
  advance-bytercv accepted s s' k e = ground arith
  advance-bytercv (connected ec) s s' (k, _, _) e =
      ground (arith, k (value ec) (record s { connects = s.connects - 1 }))
  advance-bytercv (arrived ec chunk) s s' (_, k, _) e =
      let s0 = record s { reads = s.reads - 1; bufrcv = chunk ++ drop (length chunk) s.bufrcv } in
      ground
        (arith, k (value ec) s0, k (value ec) (record s0 { crcrcv = push_all cb s0.crcrcv chunk }))
  advance-bytercv (delivered ec n) s s' (_, _, k) e =
      let s0 = record s { writes = rest_of s.writes } in
      ground (arith, k n (record s0 { crcsnd = cb.erase_begin s0.crcsnd n }))

  run-bytercv :
      (es : List Step) (s s' : Client cb)
      → LeavesCount
      → run es s ≡ some s'
      → s'.bytercv ≡ s.bytercv
  unfolding run
  run-bytercv [] s s' k h = ground arith
  run-bytercv (e ∷ es) s s' k h = elim (Option-cases (advance e s)) [
    | inl stuck ↦ absurd (ground arith)
    | inr (s1, step) ↦ run-bytercv es s1 s' k (rw step at h) ∙ advance-bytercv e s s1 k step
  ]

  received_nothing : (s : Client cb) → s.usebuf ≡ false → s.bytercv ≡ 0 → received cb s ≡ []
  unfolding received
  received_nothing s u e = ground arith

  -- From a new client on, whatever of its operations is called, whatever arrives and whatever slots are
  -- registered that leave the number of received bytes alone: without a buffer, Lookup finds no flag and
  -- Read returns no byte, for every positive length and every start that give an `int` as their sum, since
  -- no operation notes how many bytes arrived.
  pub unbuffered_reads_nothing :
      (rcv snd : cb.Buf) (es : List Step) (s : Client cb) (flag : Bytes) (len from : ℕ)
      → LeavesCount
      → run es (init cb rcv snd) ≡ some s
      → s.usebuf ≡ false
      → 0 < len
      → from + len ≤ 2147483647
      → (lookup cb (some flag) (pos len) (pos from) s ≡ minus_one)
        × (read cb (pos len) (pos from) s ≡ ([], s))
  unfolding init read
  unbuffered_reads_nothing rcv snd es s flag len from k h unbuffered positive small =
      let none_noted : s.bytercv ≡ 0 = run-bytercv es (init cb rcv snd) s k h in
      let nothing : received cb s ≡ [] = received_nothing s unbuffered none_noted in
      (
        Answer-nil positive (rw nothing at (lookup-received-Answer cb flag len from s positive)),
        ground (arith, guard_passes len from positive),
      )

  abbrev pub starts_read : Step → Bool
  starts_read (connects_async opens) = true
  starts_read accepted = true
  starts_read _ = false

  -- Neither a connection attempt nor a read waits.
  abbrev Quiet : Client cb → Type 0
  Quiet s = (s.connects ≡ 0) × (s.reads ≡ 0)

  -- The slot of writes, the only one that is called then, starts neither.
  abbrev pub LeavesQuiet : Type 0
  LeavesQuiet =
      (n : ℕ) (t : Client cb)
      → ((on_write n t).connects ≡ t.connects) × ((on_write n t).reads ≡ t.reads)

  advance-Quiet :
      (e : Step) (s s' : Client cb)
      → LeavesQuiet
      → starts_read e ≡ false
      → Quiet s
      → advance e s ≡ some s'
      → Quiet s'
  unfolding advance connect async_connect close use_buffer read write handle_connect handle_read
      handle_write start_read start_write register_connect register_read register_write
  advance-Quiet (connects ec opened) s s' k n (c, r) e = (ground arith, ground arith)
  advance-Quiet (connects_async opens) s s' k n (c, r) e = absurd (ground arith)
  advance-Quiet closes s s' k n (c, r) e = (ground arith, ground arith)
  advance-Quiet (uses_buffer true) s s' k n (c, r) e = (ground arith, ground arith)
  advance-Quiet (uses_buffer false) s s' k n (c, r) e = (ground arith, ground arith)
  advance-Quiet (reads len from) s s' k n (c, r) e = (ground arith, ground arith)
  advance-Quiet (writes buff len sent) s s' k n (c, r) e = (ground arith, ground arith)
  advance-Quiet registers_connect s s' k n (c, r) e = (ground arith, ground arith)
  advance-Quiet registers_read s s' k n (c, r) e = (ground arith, ground arith)
  advance-Quiet registers_write s s' k n (c, r) e = (ground arith, ground arith)
  advance-Quiet accepted s s' k n (c, r) e = absurd (ground arith)
  advance-Quiet (connected ec) s s' k n (c, r) e = absurd (ground arith)
  advance-Quiet (arrived ec chunk) s s' k n (c, r) e = absurd (ground arith)
  advance-Quiet (delivered ec m) s s' k n (c, r) e =
      let s0 = record s { writes = rest_of s.writes } in
      let (kc, kr) = k m (record s0 { crcsnd = cb.erase_begin s0.crcsnd m }) in
      (ground (arith, kc), ground (arith, kr))

  run-Quiet :
      (es : List Step) (s s' : Client cb)
      → LeavesQuiet
      → All (λ e. starts_read e ≡ false) es
      → Quiet s
      → run es s ≡ some s'
      → Quiet s'
  unfolding run
  run-Quiet [] s s' k n q h = (ground arith, ground arith)
  run-Quiet (e ∷ es) s s' k (n, ns) q h = elim (Option-cases (advance e s)) [
    | inl stuck ↦ absurd (ground arith)
    | inr (s1, step) ↦ run-Quiet es s1 s' k ns (advance-Quiet e s s1 k n q step) (rw step at h)
  ]

  -- From a new client on that no TCPServer accepts, in a run that never calls AsyncConnect, where the
  -- slot of writes starts no operation itself: no read is ever started, so no received byte reaches the
  -- client, though Connect may have succeeded.
  pub connect_starts_no_read :
      (rcv snd : cb.Buf) (es : List Step) (s : Client cb)
      → LeavesQuiet
      → All (λ e. starts_read e ≡ false) es
      → run es (init cb rcv snd) ≡ some s
      → s.reads ≡ 0
  unfolding init
  connect_starts_no_read rcv snd es s k n h =
      (run-Quiet es (init cb rcv snd) s k n (refl, refl) h).1
