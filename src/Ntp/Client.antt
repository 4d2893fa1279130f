-- ===== src/Ntp/Client.antt =====
-- The state of NTPClient, its calls and one round of its thread.
use camannex.Base.{
  ℕ, ◌+◌, ◌*◌, List, [], ◌∷◌, ◌++◌, Bytes, Bool, true, false, not, ◌&&◌, ◌||◌, Option, none, some,
  leb, if◌then◌else◌, ◌>>=◌, length, take, replicate,
}
use camannex.Base.Int.{ℤ, pos}
use camannex.Base.Real.{Real}
use camannex.Transfer.Reply.{copy_to}
use camannex.Ntp.{TimeVal, NtpTime, NtpPacket, jan_1970, ntp_pck_len, construct_packet, read_packet}

-- What the system answers in one round of the thread: getaddrinfo and socket, sendto, select, recvfrom
-- and the clock. `lookup` is none where getaddrinfo fails; an address is a number.
pub record Answers : Type 0 where
  pub lookup : Option ℕ
  pub socket : Option ℕ
  pub sent : Bool
  pub ready : Bool
  pub received : Option Bytes
  -- the clock when the packet is made, after the answer, and in SynchClock
  pub at_request : TimeVal
  pub at_answer : TimeVal
  pub at_synch : TimeVal

module _ (real : Real) where
  open real use {R, add, sub, mul, div, neg, of_int, trunc, literal, leb as le}

  -- The members of NTPClient, the locals of thread_body that outlive a round, and the times that the
  -- clock was set to.
  pub record Ntp : Type 0 where
    pub host : Bytes
    pub port : ℕ
    pub sock : Option ℕ
    pub t_sync : R
    pub pack : Bytes
    pub offset : R
    pub valid : Bool
    pub nfail : ℕ
    pub auto_sync : Bool
    pub res : Option ℕ
    pub identifier : Bytes
    pub clock_sets : List (ℤ × ℤ)

  -- The constructor. `junk` is what the fresh packet holds, `id` the packet on the thread's stack.
  unfoldable pub init : Bytes → ℕ → ℤ → Bytes → Bytes → Ntp
  init host port t_sync junk id = record {
    host = host;
    port = port;
    sock = none;
    t_sync = mul (of_int t_sync) (literal 1 3);
    pack = take (ntp_pck_len * 8) (junk ++ replicate (ntp_pck_len * 8) 0);
    offset = literal 0 0;
    valid = false;
    nfail = 0;
    auto_sync = false;
    res = none;
    identifier = take 4 (id ++ replicate 4 0);
    clock_sets = [];
  }

  -- NTPClient::SetHost
  unfoldable pub set_host : Bytes → ℕ → Ntp → Ntp
  set_host ip port s = record s { host = ip; port = port; sock = none }

  -- NTPClient::SetSyncLimit
  unfoldable pub set_sync_limit : ℤ → Ntp → Ntp
  set_sync_limit t_sync s = record s { t_sync = mul (of_int t_sync) (literal 1 3) }

  -- NTPClient::EnableAutoSynch
  unfoldable pub enable_auto_synch : Bool → Ntp → Ntp
  enable_auto_synch enabled s = record s { auto_sync = enabled }

  -- `offset_ >= tSync_ || offset_ <= -tSync_`
  unfoldable pub drifts : Ntp → Bool
  drifts s = le s.t_sync s.offset || le s.offset (neg s.t_sync)

  -- `tv_sec + tv_usec * 1E-6`
  abbrev pub seconds : TimeVal → R
  seconds tv = add (of_int (pos tv.sec)) (mul (of_int (pos tv.usec)) (literal 1 6))

  -- NTPClient::SynchClock at the time `tv`
  unfoldable pub synch_clock : TimeVal → Ntp → Ntp
  synch_clock tv s =
      let t = add (seconds tv) s.offset in
      let sec = trunc t in
      let usec = trunc (mul (sub t (of_int sec)) (literal 1000000 0)) in
      if s.valid && drifts s
      then record s { clock_sets = s.clock_sets ++ (sec, usec) ∷ []; valid = false }
      else s

  -- What get_time fills `ret_time` with, behind a recvfrom that succeeded.
  unfoldable pub accept : Bytes → Ntp → Option (Option NtpPacket × Ntp)
  unfolding copy_to
  accept received s =
      let n = length (take (ntp_pck_len * 8) received) in
      let memory = copy_to 0 n received s.pack in
      read_packet memory s.identifier >>= λ p. some (
        some p,
        record s { pack = memory; valid = true; nfail = 0; identifier = p.reference_identifier },
      )

  -- NTPClient::get_time. `none`: it reads an address that is NULL, or writes behind the packet.
  unfoldable pub get_time : Answers → Ntp → Option (Option NtpPacket × Ntp)
  get_time a s =
      let s1 = record s { pack = construct_packet real a.at_request s.pack } in
      s.res >>= λ addr.
      if not a.sent
      then some (none, record s1 { sock = none })
      else if not a.ready
      then some (none, s1)
      else elim a.received as (λ r. Option (Option NtpPacket × Ntp)) [
        | none ↦ some (none, record s1 { sock = none })
        | some bytes ↦ accept bytes s1
      ]

  -- `coarse + (double) fine / UINTMAX`
  abbrev pub stamp : NtpTime → R
  stamp t = add (of_int (pos t.coarse)) (div (of_int (pos t.fine)) (literal 4294967295 0))

  -- The offset that thread_body computes from an answer.
  unfoldable pub offset_of : NtpPacket → TimeVal → R
  offset_of p tv =
      let t1 = stamp p.originate_timestamp in
      let t2 = stamp p.receive_timestamp in
      let t3 = stamp p.transmit_timestamp in
      let t4 = add (of_int (pos (jan_1970 + tv.sec))) (mul (of_int (pos tv.usec)) (literal 1 6)) in
      mul (add (sub t2 t1) (sub t3 t4)) (literal 5 1)

  -- The branches of thread_body behind get_time. Warnings are not kept.
  unfoldable pub judge : Answers → Option NtpPacket → Ntp → Ntp
  judge a (some p) s =
      let s1 = record s { offset = offset_of p a.at_answer } in
      if drifts s1 && s1.auto_sync then synch_clock a.at_synch s1 else s1
  judge a none s =
      let s1 = record s { nfail = s.nfail + 1 } in
      if leb 5 s1.nfail && s1.valid then record s1 { valid = false } else s1

  -- `sock_ < 0`: the attempt to open the network. Whether the round goes on, and the state.
  unfoldable pub open_socket : Answers → Ntp → Bool × Ntp
  open_socket a s = elim a.lookup as (λ l. Bool × Ntp) [
    | none ↦ (false, s)
    | some addr ↦ elim a.socket as (λ k. Bool × Ntp) [
      | none ↦ (false, record s { res = some addr; sock = none })
      | some fd ↦ (true, record s { res = some addr; sock = some fd })
    ]
  ]

  -- The head of a round: whether it goes on, and the state.
  unfoldable pub connected : Answers → Ntp → Bool × Ntp
  unfolding open_socket
  connected a s = elim s.sock as (λ k. Bool × Ntp) [ none ↦ open_socket a s | some fd ↦ (true, s) ]

  -- One round of NTPClient::thread_body.
  unfoldable pub round : Answers → Ntp → Option Ntp
  round a s =
      let (goes_on, s1) = connected a s in
      if not goes_on then some s1 else (get_time a s1 >>= λ r. some (judge a r.0 r.1))
