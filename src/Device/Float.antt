-- ===== src/Device/Float.antt =====
-- A `double`: a type with the operations that the source applies to it.
use camannex.Base.{Bytes, Bool, [], ◌∷◌, ◌==◌, if◌then◌else◌}

pub record Float : Type 1 where
  pub Double : Type 0
  pub zero_value : Double
  -- `a != b`, which is true of two values that are not numbers
  pub ne : Double → Double → Bool
  -- atof, on the bytes up to the first zero
  pub atof : Bytes → Double

-- `strval.c_str()`, as a function that reads a C string sees it: the bytes before the first zero.
unfoldable pub c_str : Bytes → Bytes
c_str [] = []
c_str (c ∷ cs) = let more = c ∷ c_str cs in if c == 0 then [] else more
