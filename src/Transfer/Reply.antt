-- ===== src/Transfer/Reply.antt =====
-- WriteMemoryCallback of src/DataTransfer.cpp, which libcurl calls with each piece of a reply.
use camannex.Base.{
  ℕ, zero, suc, ◌+◌, ◌*◌, ◌%◌, ◌^◌, ◌<◌, ◌≤◌, ◌≡◌, refl, ap, List, [], ◌∷◌, ◌++◌, Bytes, Bool, true,
  not, map, Option, none, some, ltb, if◌then◌else◌, ◌>>=◌, length, take, drop, set, replicate, All,
  append_assoc, append-nil, take-append_le, subst, arith, ◌∙◌, length-append, length-drop,
  length-replicate, take-length,
}
use camannex.Transfer.{CurlCache}

-- One call of libcurl. `room` says whether realloc finds memory.
pub record Piece : Type 0 where
  pub contents : Bytes
  pub size : ℕ
  pub nmemb : ℕ
  pub room : Bool

-- A block of `n` bytes that starts with `old`. The rest holds what nobody wrote: `junk`.
unfoldable pub resized : ℕ → ℕ → Bytes → Bytes
resized junk n old = take n (old ++ replicate n junk)

-- memcpy of `n` bytes to the position `i`.
unfoldable pub copy_to : ℕ → ℕ → Bytes → Bytes → Bytes
copy_to i n from memory = take i memory ++ (take n from ++ drop (i + n) memory)

-- WriteMemoryCallback: what it returns, and the cache. `none` where it writes behind the block.
unfoldable pub write_memory_callback : ℕ → Piece → CurlCache → Option (ℕ × CurlCache)
unfolding resized copy_to
write_memory_callback junk p mem =
    let realsize = p.size * p.nmemb % 2 ^ 64 in
    let n = (mem.size + realsize + 1) % 2 ^ 64 in
    let old : Bytes = elim mem.memory [ none ↦ [] | some m ↦ m ] in
    let copied = copy_to mem.size realsize p.contents (resized junk n old) in
    if not p.room
    then some (0, record mem { memory = none })
    else if not (ltb (mem.size + realsize) n)
    then none
    else some (
      realsize,
      record mem { memory = some (set copied (mem.size + realsize) 0); size = mem.size + realsize },
    )

-- The calls of one transfer, in order: what each returned, and the cache.
unfoldable pub receive : ℕ → List Piece → CurlCache → Option (List ℕ × CurlCache)
unfolding write_memory_callback
receive junk [] mem = some ([], mem)
receive junk (p ∷ ps) mem =
    write_memory_callback junk p mem >>= λ r. receive junk ps r.1 >>= λ s. some (r.0 ∷ s.0, s.1)

-- A piece whose bytes are as many as it says, and that finds memory.
abbrev pub IsWhole : Piece → Type 0
IsWhole p = (p.room ≡ true) × (length p.contents ≡ p.size * p.nmemb)

-- The reply: all pieces, one behind the other.
unfoldable pub reply : List Piece → Bytes
reply [] = []
reply (p ∷ ps) = p.contents ++ reply ps

module _ {ℓ} {A : Type ℓ} where
  take_behind : (xs ys : List A) (k : ℕ) → take (length xs + k) (xs ++ ys) ≡ xs ++ take k ys
  take_behind [] ys k = ap (λ n. take n ys) (omega arith)
  take_behind (x ∷ xs) ys k =
      let e : suc (length xs) + k ≡ suc (length xs + k) = omega arith in
      rw e (ap (x ∷◌) (take_behind xs ys k))

  drop_behind : (xs ys : List A) (k : ℕ) → drop (length xs + k) (xs ++ ys) ≡ drop k ys
  drop_behind [] ys k = ap (λ n. drop n ys) (omega arith)
  drop_behind (x ∷ xs) ys k =
      let e : suc (length xs) + k ≡ suc (length xs + k) = omega arith in rw e (drop_behind xs ys k)

  set_behind :
      (xs ys : List A) (k : ℕ) (v : A) → set (xs ++ ys) (length xs + k) v ≡ xs ++ set ys k v
  set_behind [] ys k v = ap (λ n. set ys n v) (omega arith)
  set_behind (x ∷ xs) ys k v =
      let e : suc (length xs) + k ≡ suc (length xs + k) = omega arith in
      rw e (ap (x ∷◌) (set_behind xs ys k v))

  take_all_replicate : (m n : ℕ) (a : A) → m ≤ n → take m (replicate n a) ≡ replicate m a
  take_all_replicate zero n a h = refl
  take_all_replicate (suc m) zero a h = absurd (omega arith)
  take_all_replicate (suc m) (suc n) a h = ap (a ∷◌) (take_all_replicate m n a (omega arith))

set_single {ℓ} : {A : Type ℓ} (ys : List A) (v : A) → length ys ≡ 1 → set ys 0 v ≡ v ∷ []
set_single [] v e = absurd (omega arith)
set_single (y ∷ []) v e = refl
set_single (y ∷ z ∷ ys) v e = absurd (omega arith)

-- Growing a block that holds `xs` and one byte more.
resized-append :
    (junk r z : ℕ) (xs : Bytes)
    → resized junk (length xs + r + 1) (xs ++ z ∷ []) ≡ xs ++ z ∷ replicate r junk
unfolding resized
resized-append junk r z xs =
    let n : length xs + r + 1 ≡ length xs + suc r = omega arith in
    rw
      (
        append_assoc,
        n,
        take_behind xs (z ∷ replicate (length xs + suc r) junk) (suc r),
        take_all_replicate r (length xs + suc r) junk (omega arith),
      )
      refl

-- What a callback leaves in the block.
copied-append :
    (junk z : ℕ) (xs c : Bytes)
    → set
        (copy_to (length xs) (length c) c (resized junk (length xs + length c + 1) (xs ++ z ∷ [])))
        (length xs + length c)
        0
      ≡ (xs ++ c) ++ 0 ∷ []
unfolding copy_to
copied-append junk z xs c =
    rw
      (
        resized-append junk (length c) z xs,
        drop_behind xs (z ∷ replicate (length c) junk) (length c),
        start,
        take-length (length c) c (omega arith),
        set_behind xs (c ++ last) (length c) 0,
        behind,
        append_assoc,
      )
      refl
  where
    last : Bytes
    last = drop (length c) (z ∷ replicate (length c) junk)

    start : take (length xs) (xs ++ z ∷ replicate (length c) junk) ≡ xs
    start = take-append_le (length xs) xs _ (omega arith) ∙ take-length (length xs) xs (omega arith)

    behind : set (c ++ last) (length c) 0 ≡ c ++ 0 ∷ []
    behind =
        let e : length c + 0 ≡ length c = omega arith in
        let one : length last ≡ 1 = omega (
          arith,
          length-drop (length c) (z ∷ replicate (length c) junk),
          length-replicate (length c) junk,
        ) in
        subst (λ n. set (c ++ last) n 0 ≡ c ++ 0 ∷ []) e
          (set_behind c last 0 0 ∙ ap (◌++◌ c) (set_single last 0 one))

-- One callback appends its bytes, ends them with a zero, and returns how many they are.
callback-append :
    (junk z : ℕ) (xs : Bytes) (p : Piece)
    → IsWhole p
    → length xs + length p.contents + 1 < 2 ^ 64
    → write_memory_callback junk p (record { memory = some (xs ++ z ∷ []); size = length xs })
      ≡ some (
        length p.contents,
        record { memory = some ((xs ++ p.contents) ++ 0 ∷ []); size = length (xs ++ p.contents) },
      )
unfolding write_memory_callback
callback-append junk z xs p (found, all) fits =
    let size : p.size * p.nmemb % 2 ^ 64 ≡ length p.contents = omega arith in
    let block : (length xs + length p.contents + 1) % 2 ^ 64 ≡ length xs + length p.contents + 1 =
      omega arith in
    let below : ltb (length xs + length p.contents) (length xs + length p.contents + 1) ≡ true =
      ground arith in
    rw (size, block, found, below, copied-append junk z xs p.contents, length-append) refl

-- The byte behind the reply: a zero, once there was a piece.
abbrev pub terminator : ℕ → List Piece → ℕ
terminator z [] = z
terminator z (p ∷ ps) = 0

terminator_zero : (ps : List Piece) → terminator 0 ps ≡ 0
terminator_zero [] = refl
terminator_zero (p ∷ ps) = refl

receive_from :
    (junk z : ℕ) (xs : Bytes) (ps : List Piece)
    → All IsWhole ps
    → length xs + length (reply ps) + 1 < 2 ^ 64
    → receive junk ps (record { memory = some (xs ++ z ∷ []); size = length xs })
      ≡ some (
        map (λ (p : Piece). length p.contents) ps,
        record {
          memory = some ((xs ++ reply ps) ++ terminator z ps ∷ []);
          size = length (xs ++ reply ps);
        },
      )
unfolding receive reply
receive_from junk z xs [] h fits = rw (append-nil) refl
receive_from junk z xs (p ∷ ps) (h, hs) fits =
    let (a, b) : (length xs + length p.contents + 1 < 2 ^ 64)
        × (length (xs ++ p.contents) + length (reply ps) + 1 < 2 ^ 64) =
      omega (arith, length-append xs p.contents, length-append p.contents (reply ps)) in
    rw
      (
        callback-append junk z xs p h a,
        receive_from junk 0 (xs ++ p.contents) ps hs b,
        terminator_zero ps,
        append_assoc xs p.contents (reply ps),
      )
      refl

-- From the block of one byte that uploadDatas makes, where every piece comes whole, finds memory and
-- the reply fits in a `size_t`, each call returns the bytes of its piece, and the block holds the
-- whole reply in order; a zero ends it exactly if there was a piece.
pub receive-reply :
    (junk : ℕ) (ps : List Piece)
    → All IsWhole ps
    → length (reply ps) + 1 < 2 ^ 64
    → receive junk ps (record { memory = some (junk ∷ []); size = 0 })
      ≡ some (
        map (λ (p : Piece). length p.contents) ps,
        record { memory = some (reply ps ++ terminator junk ps ∷ []); size = length (reply ps) },
      )
receive-reply junk ps h fits = receive_from junk junk [] ps h (omega arith)
