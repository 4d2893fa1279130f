-- ===== src/Log/Days.antt =====
-- Which file a line goes to.
use camannex.Base.{
  ◌≡◌, List, [], ◌∷◌, ◌++◌, Bytes, codes, Bool, true, false, Option, none, some, ◌⊎◌,
}
use camannex.Base.Int.{pos}
use camannex.Log.{
  Date, Fd, terminal, no_file, file_of, Log, LogType, Disk, log_normal, log_warn, log_fault,
}

-- The file that is open is of the day that is noted.
abbrev pub IsCurrent : Log → Type 0
IsCurrent s = elim s.fd [ terminal ↦ Unit {0} | no_file ↦ Unit {0} | file_of d ↦ s.day ≡ pos d.day ]

-- Where the line of a write goes: to the terminal, or to a file of the same day of the month.
abbrev pub Fits : Date → Fd → Type 0
Fits date fd = elim fd [ terminal ↦ Unit {0} | no_file ↦ ⊥ | file_of d ↦ d.day ≡ date.day ]

-- What valid_file leaves: it is undefined where the file cannot be opened; else the file that is open is
-- of the day that is noted; and there is none and it returns false, or it is of the day of the date and
-- it returns true.
abbrev Valid : Disk → Date → Option (Log × Bool) → Type 0
Valid disk date none = disk.opens ≡ false
Valid disk date (some (s, ok)) =
    IsCurrent s × (((s.fd ≡ no_file) × (ok ≡ false)) ⊎ (Fits date s.fd × (ok ≡ true)))

-- The line that is expected: the time, WARN or ERROR for the two graver kinds, the place and the text.
abbrev pub line_for : Bytes → LogType → Option Bytes → Bytes → Bytes
line_for tag log_normal none text = tag ++ codes " >> " ++ text
line_for tag log_normal (some p) text = tag ++ codes " >> " ++ p ++ codes ", " ++ text
line_for tag log_warn none text = tag ++ codes " >> WARN: " ++ text
line_for tag log_warn (some p) text = tag ++ codes " >> WARN: " ++ p ++ codes ", " ++ text
line_for tag log_fault none text = tag ++ codes " >> ERROR: " ++ text
line_for tag log_fault (some p) text = tag ++ codes " >> ERROR: " ++ p ++ codes ", " ++ text

-- What a write of a line leaves: it is undefined where the file cannot be opened; else the open file is
-- of the day that is noted, and no file is open or the line stands last, at the terminal or in a file of
-- the same day of the month.
abbrev pub Written : Disk → Date → Bytes → Option Log → Type 0
Written disk date line none = disk.opens ≡ false
Written disk date line (some s) =
    IsCurrent s
    × ((s.fd ≡ no_file)
        ⊎ ((before : List (Fd × Bytes)) × (s.out ≡ before ++ (s.fd, line) ∷ []) × Fits date s.fd))
