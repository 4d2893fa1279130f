-- ===== src/Daemon.antt =====
-- src/daemon.cpp: the daemon and its PID file. What the system answers is an argument.
pub mod Exclusion
pub mod Start
pub mod Tests
use camannex.Base.{
  ℕ, ◌+◌, ◌%◌, List, [], ◌∷◌, ◌++◌, Bytes, codes, Bool, true, false, not, Option, none, some,
  length, take, ◌==◌, if◌then◌else◌,
}
use camannex.Base.Text.{decimal}

-- The calls of the system, in order.
pub data Call : Type 0 where
  notifies_prepare : Call
  forks : Call
  logs_error : Bytes → Call
  sets_sid : Call
  changes_dir : Bytes → Call
  masks : ℕ → Call
  closes : ℕ → Call
  opens : Bytes → Call
  notifies_child : Call
  locks : ℕ → Call
  truncates : ℕ → Call
  -- The text, and how many bytes of it the system took, or none.
  writes : ℕ → Bytes → Option ℕ → Call
  gets_flags : ℕ → Call
  sets_flags : ℕ → ℕ → Call

-- What the system answers about the PID file.
pub record PidFile : Type 0 where
  pub opened : Option ℕ
  pub locked : Bool
  pub truncated : Bool
  pub written : Option ℕ
  pub flags : Option ℕ
  pub kept : Bool

-- `val |= FD_CLOEXEC`, the lowest bit
unfoldable pub close_on_exec : ℕ → ℕ
close_on_exec val = if val % 2 == 1 then val else val + 1

-- `(size_t) write(...) == strlen(buff)`
unfoldable pub is_complete : Option ℕ → Bytes → Bool
is_complete none text = false
is_complete (some n) text = n == length text

-- isProcSingleton, of the process `pid`, from its `open` on.
unfoldable pub is_proc_singleton : Bytes → ℕ → PidFile → Bool × List Call
unfolding close_on_exec is_complete
is_proc_singleton pidfile pid a = elim a.opened [
  | none ↦ (false, opens pidfile ∷ [])
  | some fd ↦
      let text = decimal pid ++ 10 ∷ [] in
      let locking = opens pidfile ∷ locks fd ∷ [] in
      let writing = locking ++ truncates fd ∷ writes fd text a.written ∷ [] in
      if not a.locked
      then (false, locking)
      else if not a.truncated
      then (false, locking ++ truncates fd ∷ [])
      else if not (is_complete a.written text)
      then (false, writing)
      else elim a.flags [
        | none ↦ (false, writing ++ gets_flags fd ∷ [])
        | some val ↦ (a.kept, writing ++ gets_flags fd ∷ sets_flags fd (close_on_exec val) ∷ [])
      ]
]

-- How MakeItDaemon ends: by exit(0) in the parent, or by what it returns.
pub data Outcome : Type 0 where
  exits : Outcome
  fails : Outcome
  continues : Outcome

-- One fork: -1 is `none`, and 0 the child. `rest` is what the child goes on with.
unfoldable pub fork_off : Option ℕ → Bytes → Outcome × List Call → Outcome × List Call
fork_off none message rest = (fails, forks ∷ logs_error message ∷ [])
fork_off (some pid) message rest =
    if pid == 0 then (rest.0, forks ∷ rest.1) else (exits, forks ∷ [])

-- MakeItDaemon, behind its second fork
unfoldable pub close_standard : Bool → Outcome × List Call
close_standard null_opens =
    let closing = closes 0 ∷ closes 1 ∷ closes 2 ∷ opens (codes "/dev/null") ∷ [] in
    if not null_opens
    then (fails, closing ++ logs_error (codes "Unable to open /dev/null: %m") ∷ [])
    else (continues, closing ++ notifies_child ∷ [])

-- MakeItDaemon, with the results of its two forks and whether /dev/null opens.
unfoldable pub make_it_daemon : Option ℕ → Option ℕ → Bool → Outcome × List Call
unfolding fork_off close_standard
make_it_daemon first second null_opens =
    let inner = fork_off second (codes "Second fork failed: %m") (close_standard null_opens) in
    let session = sets_sid ∷ changes_dir (codes "/") ∷ masks 0 ∷ inner.1 in
    let outer = fork_off first (codes "First fork failed: %m") (inner.0, session) in
    (outer.0, notifies_prepare ∷ outer.1)
