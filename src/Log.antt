-- ===== src/Log.antt =====
-- src/GLog.cpp and src/GLog.h: the log, which goes to a terminal or to one file a day. The directory,
-- opening a file and the date are the environment.
pub mod Days
pub mod Tests
use camannex.Base.{
  ℕ, List, [], ◌∷◌, ◌++◌, Bytes, codes, replicate, Bool, true, false, not, Option, none, some,
  if◌then◌else◌, ◌==◌, ◌>>=◌,
}
use camannex.Base.Int.{ℤ, pos, negsuc, eqb_ℤ}

-- A date: the month, counted in any way, and the day of the month.
pub record Date : Type 0 where
  pub month : ℕ
  pub day : ℕ

-- `fd_`: stdout or stderr, NULL, or the file of a date.
pub data Fd : Type 0 where
  terminal : Fd
  no_file : Fd
  file_of : Date → Fd

-- `day_` is -1 at first. `out` has each line that was written, and where.
pub record Log : Type 0 where
  pub day : ℤ
  pub fd : Fd
  pub out : List (Fd × Bytes)

-- The constructor
unfoldable pub init : Fd → Log
init out = record { day = negsuc 0; fd = out; out = [] }

abbrev pub put : Bytes → Log → Log
put line s = record s { out = s.out ++ (s.fd, line) ∷ [] }

-- What the system answers: whether the directory can be written to, after it was made if it was
-- missing, and whether the file can be opened.
pub record Disk : Type 0 where
  pub writable : Bool
  pub opens : Bool

-- The first part of GLog::valid_file: a new day closes the file.
unfoldable pub change_day : Date → Log → Log
change_day date s =
    let closed : Log = elim s.fd [
      | terminal ↦ s
      | no_file ↦ s
      | file_of d ↦ record (put (replicate 69 b'>' ++ codes " continue") s) { fd = no_file }
    ] in
    if not (eqb_ℤ s.day (pos date.day)) then record closed { day = pos date.day } else s

-- The second part: without a file, one is opened. `none`: fopen fails, and fprintf is called on NULL.
unfoldable pub open_file : Disk → Date → Log → Option (Log × Bool)
open_file disk date s =
    let opened : Option (Log × Bool) =
      if disk.opens
      then some (put (replicate 79 b'-') (record s { fd = file_of date }), true)
      else none in
    elim s.fd [
      | terminal ↦ some (s, true)
      | file_of d ↦ some (s, true)
      | no_file ↦ if disk.writable then opened else some (s, false)
    ]

-- GLog::valid_file
unfoldable pub valid_file : Disk → Date → Log → Option (Log × Bool)
unfolding change_day open_file
valid_file disk date s = elim s.fd [
  | terminal ↦ some (s, true)
  | no_file ↦ open_file disk date (change_day date s)
  | file_of d ↦ open_file disk date (change_day date s)
]

-- enum LOG_TYPE
pub data LogType : Type 0 where
  log_normal log_warn log_fault : LogType

abbrev pub kind_text : LogType → Bytes
kind_text log_normal = []
kind_text log_warn = codes "WARN: "
kind_text log_fault = codes "ERROR: "

-- Both GLog::Write, at a time of day with the text `tag`; `text` is what vfprintf makes of the format
-- and its arguments. The shorter one writes with log_normal and without a place.
unfoldable pub write :
    Disk → Date → Bytes → LogType → Option Bytes → Option Bytes → Log → Option Log
unfolding valid_file
write disk date tag kind place none s = some s
write disk date tag kind place (some text) s =
    let at : Bytes = elim place [ none ↦ [] | some p ↦ p ++ codes ", " ] in
    valid_file disk date s >>= λ r.
    some (if r.1 then put (tag ++ codes " >> " ++ kind_text kind ++ at ++ text) r.0 else r.0)
