-- ===== src/Protocol/Slots.antt =====
-- How long the lines stay that AsciiProtocol returns: it hands out ten stores in turn.
use camannex.Base.{
  ℕ, ◌+◌, ◌-◌, ◌%◌, ◌<◌, ◌≤◌, ◌≡◌, refl, ◌∙◌, List, [], ◌∷◌, ◌++◌, Bytes, arith, length, get_or,
  length-set, get_or-set,
}
use camannex.Protocol.Boost.{Strings}
use camannex.Protocol.{Output, stored}

module _ (st : Strings) where
  open st use {trim_end}

  -- The store after these texts were put out, one after the other.
  abbrev pub store_all : List Bytes → Output → Output
  store_all [] s = s
  store_all (t ∷ ts) s = store_all ts (stored st t s)

  -- Ten stores, and an index of one of them.
  abbrev pub Stores : Output → Type 0
  Stores s = (s.ibuf < 10) × (length s.buff ≡ 10)

  pub stored-Stores : (t : Bytes) (s : Output) → Stores s → Stores (stored st t s)
  unfolding stored
  stored-Stores t s (h, n) =
      (ground arith, length-set s.buff s.ibuf (trim_end t ++ 10 ∷ 0 ∷ []) ∙ n)

  -- A store that comes up only after `length ts` further lines is not written by them.
  store_all-keeps :
      (ts : List Bytes) (s : Output) (i : ℕ)
      → Stores s
      → i < 10
      → length ts ≤ (i + 10 - s.ibuf) % 10
      → get_or (store_all ts s).buff i [] ≡ get_or s.buff i []
  unfolding stored
  store_all-keeps [] s i v h far = refl
  store_all-keeps (t ∷ ts) s i (b, size) h far =
      store_all-keeps ts (stored st t s) i (stored-Stores t s (b, size)) h (ground arith)
      ∙ ground (arith, get_or-set s.buff s.ibuf i (trim_end t ++ 10 ∷ 0 ∷ []) [])

  -- A line that output_compacted wrote stays as it was written, with the line feed and the
  -- terminating zero, while at most nine further lines are put out.
  pub stored-stays :
      (text : Bytes) (more : List Bytes) (s : Output)
      → Stores s
      → length more ≤ 9
      → get_or (store_all more (stored st text s)).buff s.ibuf [] ≡ trim_end text ++ 10 ∷ 0 ∷ []
  unfolding stored
  stored-stays text more s (b, size) few =
      store_all-keeps more (stored st text s) s.ibuf (stored-Stores text s (b, size)) b
        (ground arith)
      ∙ ground (arith, get_or-set s.buff s.ibuf s.ibuf (trim_end text ++ 10 ∷ 0 ∷ []) [])
