-- ===== src/Buffer/Push.antt =====
-- The loops of `push_back` in SerialComm (src/SerialComm.cpp) and TCPClient (src/tcpasio.cpp).
use camannex.Base.{
  suc, ◌+◌, ◌-◌, ◌≤◌, ◌≡◌, refl, sym, ap, ◌∙◌, [], ◌∷◌, ◌++◌, append_assoc, append-nil, arith,
  Bytes, length, drop, length-append, length-drop, drop-append_le, drop-drop,
}
use native.Mathlib.Decide.{dec_lt}
use camannex.Buffer.{CircularBuffer}

module _ (cb : CircularBuffer) where
  open cb use {
    Buf, items, capacity, push_back, items-le, push_back_room, push_back_full, capacity-push_back,
  }

  -- `for (i = 0; i < n; ++i) buf.push_back(bytes[i])`
  unfoldable pub push_all : Buf → Bytes → Buf
  push_all b [] = b
  push_all b (x ∷ xs) = push_all (push_back b x) xs

  pub capacity-push_all : (b : Buf) (xs : Bytes) → capacity (push_all b xs) ≡ capacity b
  unfolding push_all
  capacity-push_all b [] = refl
  capacity-push_all b (x ∷ xs) = capacity-push_all (push_back b x) xs ∙ capacity-push_back b x

  -- Where there is room, the bytes are added in order and none is lost.
  pub push_all_room :
      (b : Buf) (xs : Bytes)
      → length (items b) + length xs ≤ capacity b
      → items (push_all b xs) ≡ items b ++ xs
  unfolding push_all
  push_all_room b [] h = sym (append-nil (items b))
  push_all_room b (x ∷ xs) h =
      let one = push_back_room b x (omega arith) in
      rw
        (
          push_all_room (push_back b x) xs
              (rw (one, length-append (items b) (x ∷ []), capacity-push_back b x) (omega arith)),
          one,
        )
        (append_assoc (items b) (x ∷ []) xs)

  -- With room or without, what is left are the newest bytes that fit.
  pub push_all_newest :
      (b : Buf) (xs : Bytes)
      → items (push_all b xs) ≡ drop (length (items b) + length xs - capacity b) (items b ++ xs)
  unfolding push_all
  push_all_newest b [] =
      let nothing : length (items b) + 0 - capacity b ≡ 0 = omega (arith, items-le b) in
      rw nothing (sym (append-nil (items b)))
  push_all_newest b (x ∷ xs) = elim (dec_lt (length (items b)) (capacity b)) [
    | yes room ↦
        let one = push_back_room b x room in
        let n : length (items b ++ x ∷ []) + length xs ≡ length (items b) + suc (length xs) =
          omega (arith, length-append (items b) (x ∷ [])) in
        rw (push_all_newest (push_back b x) xs, one, capacity-push_back b x, n)
          (ap (drop (length (items b) + suc (length xs) - capacity b))
            (append_assoc (items b) (x ∷ []) xs))
    | no full ↦
        let e : length (items b) ≡ capacity b = omega (arith, items-le b) in
        let one = push_back_full b x e in
        let size : length (items b ++ x ∷ []) ≡ suc (length (items b)) =
          omega (arith, length-append (items b) (x ∷ [])) in
        let n : length (drop 1 (items b ++ x ∷ [])) + length xs - capacity b ≡ length xs =
          omega (arith, length-drop 1 (items b ++ x ∷ []), size) in
        let m : length (items b) + suc (length xs) - capacity b ≡ 1 + length xs = omega arith in
        rw (push_all_newest (push_back b x) xs, one, capacity-push_back b x, n, m)
          (rw (
            sym (drop-append_le 1 (items b ++ x ∷ []) xs (omega (arith, size))),
            drop-drop (length xs) 1,
            append_assoc (items b) (x ∷ []) xs,
          ))
  ]
