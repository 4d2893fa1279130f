-- ===== src/Frame/Cooler/Layout.antt =====
-- The layout of the frame that CoolerCtl::encode_data writes.
use camannex.Base.{
  ℕ, zero, suc, ◌+◌, ◌-◌, ◌*◌, ◌/◌, ◌%◌, ◌≡◌, refl, sym, ap, [], ◌∷◌, ◌++◌, append_assoc, Bytes,
  arith, length, set, take, length-append,
}
use camannex.Frame.Hex.{hex_digit, lrc}
use camannex.Frame.Cooler.{encode_value, draft, encode_data}

pub length-encode_value : (value : Bytes) → length (encode_value value) ≡ 2 * length value
unfolding encode_value
length-encode_value [] = refl
length-encode_value (c ∷ cs) = omega (arith, length-encode_value cs)

-- Writes behind a prefix of known length.
set-append : (xs ys : Bytes) (n i v : ℕ) → n ≡ length xs + i → set (xs ++ ys) n v ≡ xs ++ set ys i v
set-append [] ys n i v e = let e' : n ≡ i = omega arith in rw e'
set-append (x ∷ xs) ys zero i v e = absurd (omega arith)
set-append (x ∷ xs) ys (suc n) i v e = ap (◌∷◌ x) (set-append xs ys n i v (omega arith))

pub take-append_self : (n : ℕ) (xs ys : Bytes) → n ≡ length xs → take n (xs ++ ys) ≡ xs
take-append_self zero [] ys e = refl
take-append_self zero (x ∷ xs) ys e = absurd (omega arith)
take-append_self (suc n) [] ys e = absurd (omega arith)
take-append_self (suc n) (x ∷ xs) ys e = ap (◌∷◌ x) (take-append_self n xs ys (omega arith))

-- Lead, device, function and data: the frame before its check code.
abbrev pub head_part : ℕ → ℕ → Bytes → Bytes
head_part idd idf value =
    b':'
    ∷ hex_digit (idd / 16)
    ∷ hex_digit (idd % 16)
    ∷ hex_digit (idf / 16)
    ∷ hex_digit (idf % 16)
    ∷ encode_value value

-- What the checksum is taken of.
abbrev pub checked_part : ℕ → ℕ → Bytes → Bytes
checked_part idd idf value = head_part idd idf value ++ 0 ∷ 0 ∷ 0x0d ∷ 0x0a ∷ []

abbrev pub check_of : ℕ → ℕ → Bytes → ℕ
check_of idd idf value = lrc (checked_part idd idf value)

length-draft : (idd idf : ℕ) (value : Bytes) → length (draft idd idf value) ≡ 10 + 2 * length value
unfolding draft
length-draft idd idf value = omega (
  arith,
  length-append (encode_value value) (0 ∷ 0 ∷ 0x0d ∷ 0x0a ∷ 0 ∷ []),
  length-encode_value value,
)

take-draft :
    (idd idf : ℕ) (value : Bytes)
    → take (9 + 2 * length value) (draft idd idf value) ≡ checked_part idd idf value
unfolding draft
take-draft idd idf value =
    rw (sym (append_assoc (head_part idd idf value) (0 ∷ 0 ∷ 0x0d ∷ 0x0a ∷ []) (0 ∷ []))) (
      take-append_self _ (checked_part idd idf value) (0 ∷ []) (
        omega (
          arith,
          length-append (encode_value value) (0 ∷ 0 ∷ 0x0d ∷ 0x0a ∷ []),
          length-encode_value value,
        )))

-- Writing the two digits of the check code into the draft.
set-draft :
    (idd idf : ℕ) (value : Bytes) (a b : ℕ)
    → let i = 9 + 2 * length value in
      set (set (draft idd idf value) (i - 4) a) (i - 3) b
      ≡ head_part idd idf value ++ a ∷ b ∷ 0x0d ∷ 0x0a ∷ 0 ∷ []
unfolding draft
set-draft idd idf value a b =
    let front = head_part idd idf value in
    let n = length-encode_value value in
    rw
      (set-append front (0 ∷ 0 ∷ 0x0d ∷ 0x0a ∷ 0 ∷ []) (9 + 2 * length value - 4) 0 a
        (omega (arith, n)))
      (set-append front (a ∷ 0 ∷ 0x0d ∷ 0x0a ∷ 0 ∷ []) (9 + 2 * length value - 3) 1 b
        (omega (arith, n)))

size-draft : (idd idf : ℕ) (value : Bytes) → length (draft idd idf value) - 1 ≡ 9 + 2 * length value
size-draft idd idf value = omega (arith, length-draft idd idf value)

-- The buffer that encode_data leaves, written out.
pub encode_data_lem :
    (idd idf : ℕ) (value : Bytes)
    → let check = check_of idd idf value in
      encode_data idd idf value ≡ (
        9 + 2 * length value,
        head_part idd idf value
            ++ hex_digit (check / 16) ∷ hex_digit (check % 16) ∷ 0x0d ∷ 0x0a ∷ 0 ∷ [],
      )
unfolding encode_data
encode_data_lem idd idf value =
    rw (size-draft idd idf value, take-draft idd idf value)
      (ap (λ out. (9 + 2 * length value, out)) (set-draft idd idf value _ _))
