-- ===== src/Daemon/Start.antt =====
-- main of src/camannex.cpp: the command line, the daemon, and the service that it runs.
use camannex.Base.{
  ℕ, zero, suc, ◌≡◌, ◌⊎◌, refl, sym, ◌∙◌, List, [], ◌∷◌, ◌++◌, Bytes, eq_bytes, codes, Bool, true,
  false, not, Option, none, some, if◌then◌else◌, ◌>>=◌, arith, Bool-cases, inl, inr,
}
use camannex.MessageQueue.Queue.{PriorityQueue}
use camannex.MessageQueue.{MsgUnit}
use camannex.Annex.Service.{Service, stop_service}
use camannex.Base.Int.{ℤ}
use camannex.Config.{ParamConfig, init_file}
use camannex.Daemon.{PidFile, is_proc_singleton, Outcome, exits, fails, continues, make_it_daemon}

-- What the system answers to the two forks, to the opening of /dev/null and about the PID file, and
-- the number that the daemon has behind the forks.
pub record Machine : Type 0 where
  pub first : Option ℕ
  pub second : Option ℕ
  pub null_opens : Bool
  pub pid : ℕ
  pub pid_file : PidFile

-- DAEMON_AUTHORITY, in UTF-8
abbrev daemon_authority : Bytes
daemon_authority = 194 ∷ 169 ∷ codes " SVOM Group, NAOC"

abbrev pub pid_path : Bytes
pid_path = codes "/var/run/camannex.pid"

-- What _gLog is told before the service is made.
abbrev launch_line : Bytes
launch_line =
    codes "Try to launch camannex v0.1 @ Oct, 2017 " ++ (daemon_authority ++ codes " as daemon")

-- The three ways in which MakeItDaemon ends.
outcome_cases : (o : Outcome) → (o ≡ exits) ⊎ (o ≡ fails) ⊎ (o ≡ continues)
outcome_cases exits = inl refl
outcome_cases fails = inr (inl refl)
outcome_cases continues = inr (inr refl)

make_it_daemon-continues :
    (first second : Option ℕ) (null_opens : Bool)
    → (make_it_daemon first second null_opens).0 ≡ continues
    → (first ≡ some 0) × (second ≡ some 0) × (null_opens ≡ true)
unfolding make_it_daemon
make_it_daemon-continues none second null_opens e = absurd (ground arith)
make_it_daemon-continues (some (suc n)) second null_opens e = absurd (ground arith)
make_it_daemon-continues (some zero) none null_opens e = absurd (ground arith)
make_it_daemon-continues (some zero) (some (suc n)) null_opens e = absurd (ground arith)
make_it_daemon-continues (some zero) (some zero) false e = absurd (ground arith)
make_it_daemon-continues (some zero) (some zero) true e = (refl, refl, refl)

module _ (C : Type 0) (pq : PriorityQueue MsgUnit) where
  -- How a process ends: its exit code, what it printed, the configuration that it wrote and where,
  -- the lines that it logged, whether it ran the service, and the AnnexControl if there was one.
  pub record Ended : Type 0 where
    pub code : ℕ
    pub printed : Bytes
    pub saved : Option (Bytes × ParamConfig)
    pub out : List Bytes
    pub ran : Bool
    pub service : Option (Service C pq)

  abbrev silent : ℕ → Ended
  silent code = record {
    code = code;
    printed = [];
    saved = none;
    out = [];
    ran = false;
    service = none;
  }

  -- main with arguments. `unset` is the baud rate of a port that InitFile does not set.
  unfoldable pub command_line : ℤ → Bytes → Ended
  command_line unset arg =
      if eq_bytes arg (codes "-d")
      then record (silent 0) { saved = some (codes "camannex.xml", init_file unset) }
      else record (silent 0) { printed = codes "Usage: camannex <-d>\n" }

  -- From StartService, with its result, to the end. `serves` is what ios.run() makes of the service,
  -- until a signal stops it. `none`: the message thread does not end.
  unfoldable pub serve : ℕ → (Service C pq → Service C pq) → Service C pq × Bool → Option Ended
  serve fuel serves (s, started) =
      let stopped = stop_service C pq fuel (serves s) >>= λ r. some (record (silent 0) {
        out = launch_line ∷ codes "Daemon goes running" ∷ codes "Daemon stopped" ∷ [];
        ran = true;
        service = some r.1;
      }) in
      let failed = record (silent 0) {
        out = launch_line ∷ codes "Fail to launch camannex" ∷ codes "Daemon stopped" ∷ [];
        service = some s;
      } in
      if started then stopped else some failed

  -- The regular mode of main. `start` is StartService of a new AnnexControl.
  unfoldable pub daemon_mode :
      Machine → ℕ → (Service C pq → Service C pq) → Service C pq × Bool → Option Ended
  daemon_mode m fuel serves start =
      let refused = codes "camannex is already running or failed to access PID file" in
      let served = serve fuel serves start in
      elim (make_it_daemon m.first m.second m.null_opens).0 [
        | exits ↦ some (silent 0)
        | fails ↦ some (silent 1)
        | continues ↦
            if not (is_proc_singleton pid_path m.pid m.pid_file).0
            then some (record (silent 2) { out = refused ∷ [] })
            else served
      ]

  -- main, with the arguments behind its name.
  unfoldable pub run_main :
      ℤ
      → List Bytes
      → Machine
      → ℕ
      → (Service C pq → Service C pq)
      → Service C pq × Bool
      → Option Ended
  run_main unset [] m fuel serves start = daemon_mode m fuel serves start
  run_main unset (arg ∷ args) m fuel serves start = some (command_line unset arg)

  -- What holds of a process that ran the service.
  abbrev pub IsLaunched : List Bytes → Machine → Bool → Type 0
  IsLaunched args m started =
      (args ≡ [])
      × (m.first ≡ some 0)
      × (m.second ≡ some 0)
      × (m.null_opens ≡ true)
      × ((is_proc_singleton pid_path m.pid m.pid_file).0 ≡ true)
      × (started ≡ true)

  serve-ran :
      (fuel : ℕ) (serves : Service C pq → Service C pq) (start : Service C pq × Bool) {e : Ended}
      → serve fuel serves start ≡ some e
      → e.ran ≡ true
      → start.1 ≡ true
  unfolding serve
  serve-ran fuel serves start {e} h ran = elim (Bool-cases start.1) [
    | inl started ↦ started
    | inr failed ↦ absurd (ground arith)
  ]

  daemon_mode-IsLaunched :
      (m : Machine) (fuel : ℕ) (serves : Service C pq → Service C pq) (start : Service C pq × Bool)
      {e : Ended}
      → daemon_mode m fuel serves start ≡ some e
      → e.ran ≡ true
      → IsLaunched [] m start.1
  unfolding daemon_mode
  daemon_mode-IsLaunched m fuel serves start {e} h ran =
      elim (outcome_cases (make_it_daemon m.first m.second m.null_opens).0) [
        | inl exit ↦ absurd (ground arith)
        | inr (inl failed) ↦ absurd (ground arith)
        | inr (inr continued) ↦ elim (Bool-cases (is_proc_singleton pid_path m.pid m.pid_file).0) [
          | inr second ↦ absurd (ground arith)
          | inl single ↦
              let (f, s, n) = make_it_daemon-continues m.first m.second m.null_opens continued in
              let step : daemon_mode m fuel serves start ≡ serve fuel serves start =
                rw (continued, single, daemon_mode) refl in
              (refl, f, s, n, single, serve-ran fuel serves start (sym step ∙ h) ran)
        ]
      ]

  -- A process of main that ends and ran the event loop had no arguments, is the child of both forks,
  -- had /dev/null opened, holds its PID file, and its StartService returned true.
  pub run_main-IsLaunched :
      (unset : ℤ) (args : List Bytes) (m : Machine) (fuel : ℕ)
      (serves : Service C pq → Service C pq) (start : Service C pq × Bool) {e : Ended}
      → run_main unset args m fuel serves start ≡ some e
      → e.ran ≡ true
      → IsLaunched args m start.1
  unfolding run_main command_line
  run_main-IsLaunched unset [] m fuel serves start h ran =
      daemon_mode-IsLaunched m fuel serves start h ran
  run_main-IsLaunched unset (arg ∷ args) m fuel serves start {e} h ran =
      elim (Bool-cases (eq_bytes arg (codes "-d"))) [
        | inl writes ↦ absurd (ground arith)
        | inr asks ↦ absurd (ground arith)
      ]
