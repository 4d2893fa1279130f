-- ===== src/Protocol.antt =====
-- src/AsciiProtocol.cpp, src/AsciiProtocol.h and src/AsciiProtocolBase.h: the lines of text that are
-- sent to the server, and how they are read. The functions of boost on strings are a parameter.
pub mod Boost
pub mod Slots
pub mod Lines
pub mod Pairs
pub mod Tests
use camannex.Base.{
  ℕ, zero, suc, ◌+◌, ◌*◌, List, [], ◌∷◌, ◌++◌, Bytes, codes, Bool, true, false, not, ◌||◌, ◌==◌,
  Option, none, some, if◌then◌else◌, ltb, ◌>>=◌, length, set, get_or, replicate,
}
use Boost.{Strings}

-- The store of ten lines and the index of the next: `buff_`, which has 1024 bytes for each, and `ibuf_`.
-- A line is kept with the zero that sprintf writes behind it.
pub record Output : Type 0 where
  pub ibuf : ℕ
  pub buff : List Bytes

-- The constructor of AsciiProtocol
unfoldable pub init : Output
init = record { ibuf = 0; buff = replicate 10 [] }

module _ (st : Strings) where
  open st use {Single, flt_min, show, atof, trim, trim_end, split, iequals}

  -- ascii_proto_cooler and ascii_proto_vacuum, with the members of ascii_proto_base
  pub record Cooler : Type 0 where
    pub utc : Bytes
    pub gid : Bytes
    pub uid : Bytes
    pub cid : Bytes
    pub voltage : Single
    pub current : Single
    pub hotend : Single
    pub coolget : Single
    pub coolset : Single

  pub record Vacuum : Type 0 where
    pub utc : Bytes
    pub gid : Bytes
    pub uid : Bytes
    pub cid : Bytes
    pub voltage : Single
    pub current : Single
    pub pressure : Bytes

  -- Their constructors
  unfoldable pub new_cooler : Cooler
  new_cooler = record {
    utc = [];
    gid = [];
    uid = [];
    cid = [];
    voltage = flt_min;
    current = flt_min;
    hotend = flt_min;
    coolget = flt_min;
    coolset = flt_min;
  }

  unfoldable pub new_vacuum : Vacuum
  new_vacuum = record {
    utc = [];
    gid = [];
    uid = [];
    cid = [];
    voltage = flt_min;
    current = flt_min;
    pressure = [];
  }

  -- What sprintf writes, and the store behind it.
  abbrev pub line_of : Bytes → Bytes
  line_of output = trim_end output ++ 10 ∷ 0 ∷ []

  unfoldable pub stored : Bytes → Output → Output
  stored output s =
      let next = if s.ibuf + 1 == 10 then 0 else s.ibuf + 1 in
      record { ibuf = next; buff = set s.buff s.ibuf (line_of output) }

  -- AsciiProtocol::output_compacted: the index of the line that it returns, and the store. `none`: the
  -- line is longer than its 1024 bytes, and sprintf writes behind them.
  unfoldable pub output_compacted : Bytes → Output → Option (ℕ × Output)
  unfolding stored
  output_compacted output s =
      if ltb 1024 (length (line_of output)) then none else some (s.ibuf, stored output s)

  -- AsciiProtocol::join_kv
  unfoldable pub join_kv : Bytes → Bytes → Bytes → Bytes
  join_kv output keyword value = output ++ (keyword ++ b'=' ∷ value ++ b',' ∷ [])

  -- The text that CompactCooler makes, and CompactCooler on a proto that is there.
  unfoldable pub cooler_text : Cooler → Bytes
  unfolding join_kv
  cooler_text p =
      let o0 = codes "cooler " in
      let o1 = if not (length p.utc == 0) then join_kv o0 (codes "time") p.utc else o0 in
      let o2 = join_kv o1 (codes "group_id") p.gid in
      let o3 = join_kv o2 (codes "unit_id") p.uid in
      let o4 = join_kv o3 (codes "cam_id") p.cid in
      let o5 = join_kv o4 (codes "voltage") (show p.voltage) in
      let o6 = join_kv o5 (codes "current") (show p.current) in
      let o7 = join_kv o6 (codes "hotend") (show p.hotend) in
      let o8 = join_kv o7 (codes "coolget") (show p.coolget) in
      join_kv o8 (codes "coolset") (show p.coolset)

  unfoldable pub compact_cooler : Option Cooler → Output → Option (Option ℕ × Output)
  unfolding cooler_text output_compacted
  compact_cooler none s = some (none, s)
  compact_cooler (some p) s = output_compacted (cooler_text p) s >>= λ r. some (some r.0, r.1)

  unfoldable pub vacuum_text : Vacuum → Bytes
  unfolding join_kv
  vacuum_text p =
      let o0 = codes "vacuum " in
      let o1 = if not (length p.utc == 0) then join_kv o0 (codes "time") p.utc else o0 in
      let o2 = join_kv o1 (codes "group_id") p.gid in
      let o3 = join_kv o2 (codes "unit_id") p.uid in
      let o4 = join_kv o3 (codes "cam_id") p.cid in
      let o5 = join_kv o4 (codes "voltage") (show p.voltage) in
      let o6 = join_kv o5 (codes "current") (show p.current) in
      join_kv o6 (codes "pressure") p.pressure

  unfoldable pub compact_vacuum : Option Vacuum → Output → Option (Option ℕ × Output)
  unfolding vacuum_text output_compacted
  compact_vacuum none s = some (none, s)
  compact_vacuum (some p) s = output_compacted (vacuum_text p) s >>= λ r. some (some r.0, r.1)

  -- AsciiProtocol::resolve_kv: what it returns, the keyword and the value.
  unfoldable pub resolve_kv : Bytes → Bool × Bytes × Bytes
  resolve_kv kv =
      let (keyword, value) : Bytes × Bytes = elim (split b'=' kv) [
        | [] ↦ ([], [])
        | k ∷ tokens ↦ (trim k, elim tokens [ [] ↦ [] | v ∷ more ↦ trim v ])
      ] in
      (not (length keyword == 0 || length value == 0), keyword, value)

  -- The ladder of resolve_cooler, and its loop.
  unfoldable pub set_cooler : Bytes → Bytes → Cooler → Cooler
  set_cooler keyword value p =
      if iequals keyword (codes "group_id")
      then record p { gid = value }
      else if iequals keyword (codes "unit_id")
      then record p { uid = value }
      else if iequals keyword (codes "cam_id")
      then record p { cid = value }
      else if iequals keyword (codes "voltage")
      then record p { voltage = atof value }
      else if iequals keyword (codes "current")
      then record p { current = atof value }
      else if iequals keyword (codes "hotend")
      then record p { hotend = atof value }
      else if iequals keyword (codes "coolget")
      then record p { coolget = atof value }
      else if iequals keyword (codes "coolset")
      then record p { coolset = atof value }
      else if iequals keyword (codes "time")
      then record p { utc = value }
      else p

  unfoldable pub resolve_cooler : List Bytes → Cooler → Cooler
  unfolding set_cooler resolve_kv
  resolve_cooler [] p = p
  resolve_cooler (t ∷ ts) p =
      let (ok, keyword, value) = resolve_kv t in
      resolve_cooler ts (if not ok then p else set_cooler keyword value p)

  unfoldable pub set_vacuum : Bytes → Bytes → Vacuum → Vacuum
  set_vacuum keyword value p =
      if iequals keyword (codes "group_id")
      then record p { gid = value }
      else if iequals keyword (codes "unit_id")
      then record p { uid = value }
      else if iequals keyword (codes "cam_id")
      then record p { cid = value }
      else if iequals keyword (codes "voltage")
      then record p { voltage = atof value }
      else if iequals keyword (codes "current")
      then record p { current = atof value }
      else if iequals keyword (codes "pressure")
      then record p { pressure = value }
      else if iequals keyword (codes "time")
      then record p { utc = value }
      else p

  unfoldable pub resolve_vacuum : List Bytes → Vacuum → Vacuum
  unfolding set_vacuum resolve_kv
  resolve_vacuum [] p = p
  resolve_vacuum (t ∷ ts) p =
      let (ok, keyword, value) = resolve_kv t in
      resolve_vacuum ts (if not ok then p else set_vacuum keyword value p)

  -- `for (ptr = rcvd; *ptr && *ptr != ' '; ++ptr) type += *ptr`: the type and what follows.
  unfoldable pub read_type : Bytes → Bytes × Bytes
  read_type [] = ([], [])
  read_type (c ∷ cs) =
      let (word, rest) = read_type cs in
      if c == 0 || c == 32 then ([], c ∷ cs) else (c ∷ word, rest)

  -- `while (*ptr && *ptr == ' ') ++ptr`
  unfoldable pub skip_spaces : Bytes → Bytes
  skip_spaces [] = []
  skip_spaces (c ∷ cs) = let later = skip_spaces cs in if c == 32 then later else c ∷ cs

  pub data Proto : Type 0 where
    no_proto : Proto
    a_cooler : Cooler → Proto
    a_vacuum : Vacuum → Proto

  -- AsciiProtocol::Resolve, on the bytes of a C string without its zero.
  unfoldable pub resolve : Bytes → Proto
  unfolding read_type skip_spaces new_cooler new_vacuum resolve_cooler resolve_vacuum
  resolve rcvd =
      let (word, after) = read_type rcvd in
      let tokens : List Bytes = elim (skip_spaces after) [
        | [] ↦ []
        | c ∷ cs ↦ split b',' (c ∷ cs)
      ] in
      let ch = get_or word 0 0 in
      if ch == b'c'
      then (if iequals word (codes "cooler")
          then a_cooler (resolve_cooler tokens new_cooler)
          else no_proto)
      else if ch == b'v'
      then (if iequals word (codes "vacuum")
          then a_vacuum (resolve_vacuum tokens new_vacuum)
          else no_proto)
      else no_proto
