-- ===== src/Daemon/Exclusion.antt =====
-- That one daemon runs at a time: isProcSingleton of src/daemon.cpp, in any number of processes.
use camannex.Base.{
  ℕ, ◌≡◌, ◌⊎◌, ◌∙◌, refl, List, [], ◌∷◌, ◌++◌, Bytes, Bool, true, false, Option, none, some,
  if◌then◌else◌, length, take, ◌==◌, arith, Bool-cases, Option-cases, inl, inr, take-length,
}
use camannex.Base.Text.{decimal}
use camannex.Daemon.{Call, writes, truncates, PidFile, is_complete, is_proc_singleton}

-- What one call makes of the contents of the PID file: F_SETLK on it is not a change.
abbrev pub contents : Call → Bytes → Bytes
contents (truncates fd) file = []
contents (writes fd text (some n)) file = file ++ take n text
contents _ file = file

abbrev pub contents_after : List Call → Bytes → Bytes
contents_after [] file = file
contents_after (c ∷ cs) file = contents_after cs (contents c file)

-- The process that has the lock, those that go on after isProcSingleton, and the PID file.
pub record System : Type 0 where
  pub holder : Option ℕ
  pub running : List ℕ
  pub file : Bytes

abbrev pub is_free : Option ℕ → Bool
is_free none = true
is_free (some q) = false

-- A process whose file opens and that gets the lock has it from then on.
abbrev pub holder_after : ℕ → PidFile → Option ℕ → Option ℕ
holder_after pid a holder = elim a.opened [
  | none ↦ holder
  | some fd ↦ if a.locked then some pid else holder
]

abbrev pub launch : Bytes → ℕ → PidFile → System → System
launch pidfile pid a s =
    let (goes_on, calls) = is_proc_singleton pidfile pid a in
    record {
      holder = holder_after pid a s.holder;
      running = if goes_on then pid ∷ s.running else s.running;
      file = contents_after calls s.file;
    }

abbrev pub without : ℕ → List ℕ → List ℕ
without pid [] = []
without pid (p ∷ ps) = let rest = without pid ps in if p == pid then rest else p ∷ rest

abbrev pub released : ℕ → Option ℕ → Option ℕ
released pid none = none
released pid (some q) = if q == pid then none else some q

-- A process ends, and the system takes its lock back.
abbrev pub leave : ℕ → System → System
leave pid s = record s { holder = released pid s.holder; running = without pid s.running }

-- What follows on a system: a new process, which gets the lock exactly if nobody has it, or an end.
pub data Reach (pidfile : Bytes) (s : System) : System → Type 0 where
  here : Reach pidfile s s
  launches :
      {t : System}
      → Reach pidfile s t
      → (pid : ℕ) (a : PidFile) → a.locked ≡ is_free t.holder
      → Reach pidfile s (launch pidfile pid a t)
  leaves : {t : System} → Reach pidfile s t → (pid : ℕ) → Reach pidfile s (leave pid t)

-- Nobody runs, or one process, which has the lock and whose number is what the file holds.
abbrev pub IsExclusive : System → Type 0
IsExclusive s =
    (s.running ≡ [])
    ⊎ ((p : ℕ) × (s.running ≡ p ∷ []) × (s.holder ≡ some p) × (s.file ≡ decimal p ++ 10 ∷ []))

module _ (pidfile : Bytes) (pid : ℕ) (a : PidFile) where
  -- A process that does not get the lock ends, and leaves the file as it is.
  refused_leaves :
      (file : Bytes)
      → a.locked ≡ false
      → ((is_proc_singleton pidfile pid a).0 ≡ false)
        × (contents_after (is_proc_singleton pidfile pid a).1 file ≡ file)
  unfolding is_proc_singleton
  refused_leaves file refused = elim (Option-cases a.opened) [
    | inl unopened ↦ rw unopened (refl, refl)
    | inr (fd, opened) ↦ rw (opened, refused) (refl, refl)
  ]

  holder_after_refused : (holder : Option ℕ) → a.locked ≡ false → holder_after pid a holder ≡ holder
  holder_after_refused holder refused = elim (Option-cases a.opened) [
    | inl unopened ↦ rw unopened refl
    | inr (fd, opened) ↦ rw (opened, refused) refl
  ]

  complete_text :
      (text : Bytes) (fd : ℕ)
      → is_complete a.written text ≡ true
      → contents (writes fd text a.written) [] ≡ text
  unfolding is_complete
  complete_text text fd e = elim (Option-cases a.written) [
    | inl failed ↦ absurd (ground arith)
    | inr (n, wrote) ↦
        let all : n ≡ length text = ground arith in
        rw (wrote, all) (take-length (length text) text (omega arith))
  ]

  -- A process that goes on has the lock, and the file holds its number.
  goes_on_owns :
      (file : Bytes)
      → (is_proc_singleton pidfile pid a).0 ≡ true
      → (a.locked ≡ true)
        × (holder_after pid a none ≡ some pid)
        × (contents_after (is_proc_singleton pidfile pid a).1 file ≡ decimal pid ++ 10 ∷ [])
  unfolding is_proc_singleton
  goes_on_owns file e =
      let text = decimal pid ++ 10 ∷ [] in
      elim (Option-cases a.opened) [
        | inl unopened ↦ absurd (ground arith)
        | inr (fd, opened) ↦ elim (Bool-cases a.locked) [
          | inr refused ↦ absurd (ground arith)
          | inl locked ↦ elim (Bool-cases a.truncated) [
            | inr kept ↦ absurd (ground arith)
            | inl truncated ↦ elim (Bool-cases (is_complete a.written text)) [
              | inr partial ↦ absurd (ground arith)
              | inl complete ↦ elim (Option-cases a.flags) [
                | inl unread ↦ absurd (ground arith)
                | inr (val, read) ↦
                    rw (opened, locked, truncated, complete, read)
                      (refl, refl, complete_text text fd complete)
              ]
            ]
          ]
        ]
      ]

launch-IsExclusive :
    (pidfile : Bytes) (pid : ℕ) (a : PidFile) (s : System)
    → a.locked ≡ is_free s.holder
    → IsExclusive s
    → IsExclusive (launch pidfile pid a s)
launch-IsExclusive pidfile pid a s free (inr (p, running, holder, file)) =
    let refused : a.locked ≡ false = rw (free, holder) refl in
    let (ended, kept) = refused_leaves pidfile pid a s.file refused in
    inr (
      p,
      rw (ended, running) refl,
      holder_after_refused pidfile pid a s.holder refused ∙ holder,
      rw kept file,
    )
launch-IsExclusive pidfile pid a s free (inl running) =
    elim (Bool-cases (is_proc_singleton pidfile pid a).0) [
      | inr ended ↦ inl (rw (ended, running) refl)
      | inl goes_on ↦
          let (locked, holder, file) = goes_on_owns pidfile pid a s.file goes_on in
          elim (Option-cases s.holder) [
            | inr (q, taken) ↦ absurd (ground arith)
            | inl nobody ↦ inr (pid, rw (goes_on, running) refl, rw nobody holder, file)
          ]
    ]

leave-IsExclusive : (pid : ℕ) (s : System) → IsExclusive s → IsExclusive (leave pid s)
leave-IsExclusive pid s (inl running) = inl (rw running refl)
leave-IsExclusive pid s (inr (p, running, holder, file)) = elim (Bool-cases (p == pid)) [
  | inl same ↦ inl (rw (running, same) refl)
  | inr other ↦ inr (p, rw (running, other) refl, rw (holder, other) refl, file)
]

-- From a system in which nobody runs or one process that has the lock and whose number the file
-- holds, however many processes are launched and end, where the lock is given exactly if nobody has
-- it: at most one of them goes on, it has the lock, and the PID file holds its number and a line
-- feed.
pub Reach-IsExclusive :
    (pidfile : Bytes) {s t : System} → IsExclusive s → Reach pidfile s t → IsExclusive t
Reach-IsExclusive pidfile k here = k
Reach-IsExclusive pidfile k (launches r pid a free) =
    launch-IsExclusive pidfile pid a _ free (Reach-IsExclusive pidfile k r)
Reach-IsExclusive pidfile k (leaves r pid) = leave-IsExclusive pid _ (Reach-IsExclusive pidfile k r)
