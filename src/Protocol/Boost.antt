-- ===== src/Protocol/Boost.antt =====
-- The functions on strings of boost::algorithm, boost::format and the C library that AsciiProtocol
-- calls, with what they are documented to do.
use camannex.Base.{ℕ, ◌<◌, ◌≡◌, ◌≢◌, ◌⊎◌, [], ◌∷◌, ◌++◌, List, Bytes, Bool, All, eq_bytes}

-- A visible character: no space and no control character.
abbrev pub IsVisible : Bytes → Type 0
IsVisible = All (λ c. 32 < c)

-- A text that can stand in a pair: not empty, visible, and without `=` and `,`.
abbrev pub Plain : Bytes → Type 0
Plain [] = ⊥
Plain (c ∷ cs) = All (λ b. (32 < b) × (b ≢ 61) × (b ≢ 44)) (c ∷ cs)

-- A digit or a letter stands last.
abbrev pub EndsInAlnum : Bytes → Type 0
EndsInAlnum [] = ⊥
EndsInAlnum (c ∷ []) = ((47 < c) × (c < 58)) ⊎ (((64 < c) × (c < 91)) ⊎ ((96 < c) × (c < 123)))
EndsInAlnum (c ∷ d ∷ cs) = EndsInAlnum (d ∷ cs)

pub record Strings : Type 1 where
  -- `float`
  pub Single : Type 0
  pub flt_min : Single
  -- the text of `%2%`
  pub show : Single → Bytes
  -- atof, converted to a `float`
  pub atof : Bytes → Single
  pub trim : Bytes → Bytes
  -- trim_right_if of punctuation and spaces
  pub trim_end : Bytes → Bytes
  -- split at one separator, with token_compress_on
  pub split : ℕ → Bytes → List Bytes
  pub iequals : Bytes → Bytes → Bool
  -- a number's text has no space, no `=` and no `,`, and ends in a digit or a letter
  pub show_plain : (x : Single) → Plain (show x)
  pub show_end : (x : Single) → EndsInAlnum (show x)
  -- it cuts off what is punctuation, and nothing in front of it
  pub trim_end_comma :
      (xs ys : Bytes) → EndsInAlnum ys → trim_end (xs ++ ys ++ b',' ∷ []) ≡ xs ++ ys
  pub trim_visible : (xs : Bytes) → IsVisible xs → trim xs ≡ xs
  pub split_last : (sep : ℕ) (xs : Bytes) → All (λ c. c ≢ sep) xs → split sep xs ≡ xs ∷ []
  pub split_first :
      (sep y : ℕ) (xs ys : Bytes)
      → All (λ c. c ≢ sep) xs
      → y ≢ sep
      → split sep (xs ++ sep ∷ y ∷ ys) ≡ xs ∷ split sep (y ∷ ys)
  -- without capital letters, it compares the bytes
  pub iequals_lower :
      (xs ys : Bytes) → All (λ c. 90 < c) xs → All (λ c. 90 < c) ys → iequals xs ys ≡ eq_bytes xs ys
