-- ===== src/Buffer/ListBuffer.antt =====
-- A list with its capacity, as a circular buffer.
use camannex.Base.{
  ℕ, ◌+◌, ◌-◌, ◌≤◌, ◌<◌, ◌≡◌, refl, [], ◌∷◌, ◌++◌, arith, Bytes, length, drop, take, length-append,
  length-take, length-drop, take-length,
}
use camannex.Buffer.{CircularBuffer}

abbrev pub kept : ℕ × Bytes → Bytes
kept (c, xs) = take c xs

abbrev pub added : ℕ × Bytes → ℕ → ℕ × Bytes
added (c, xs) x = (c, drop (length (take c xs) + 1 - c) (take c xs ++ x ∷ []))

pub kept-le : (b : ℕ × Bytes) → length (kept b) ≤ b.0
kept-le (c, xs) = omega (arith, length-take c xs)

pub added_room :
    (b : ℕ × Bytes) (x : ℕ) → length (kept b) < b.0 → kept (added b x) ≡ kept b ++ x ∷ []
added_room (c, xs) x h =
    let none_dropped : length (take c xs) + 1 - c ≡ 0 = omega arith in
    rw none_dropped
      (take-length c (take c xs ++ x ∷ []) (omega (arith, length-append (take c xs) (x ∷ []))))

pub added_full :
    (b : ℕ × Bytes) (x : ℕ) → length (kept b) ≡ b.0 → kept (added b x) ≡ drop 1 (kept b ++ x ∷ [])
added_full (c, xs) x h =
    let one_dropped : length (take c xs) + 1 - c ≡ 1 = omega arith in
    rw one_dropped (
      take-length c (drop 1 (take c xs ++ x ∷ []))
        (omega (arith, length-append (take c xs) (x ∷ []), length-drop 1 (take c xs ++ x ∷ []))))

pub erased :
    (b : ℕ × Bytes) (n : ℕ) → n ≤ length (kept b) → take b.0 (drop n (kept b)) ≡ drop n (kept b)
erased (c, xs) n h =
    take-length c (drop n (take c xs)) (omega (arith, length-drop n (take c xs), length-take c xs))

abbrev pub list_buffer : CircularBuffer
list_buffer = record {
  Buf = ℕ × Bytes;
  items = kept;
  capacity = λ b. b.0;
  push_back = added;
  erase_begin = λ b n. (b.0, drop n (kept b));
  clear = λ b. (b.0, []);
  set_capacity = λ b n. (n, kept b);
  items-le = kept-le;
  push_back_room = added_room;
  push_back_full = added_full;
  capacity-push_back = λ b x. refl;
  items-erase_begin = erased;
  capacity-erase_begin = λ b n. refl;
  items-clear = λ b. take-length b.0 [] (omega arith);
  capacity-clear = λ b. refl;
  items-set_capacity = λ b n h. take-length n (kept b) h;
  capacity-set_capacity = λ b n. refl;
}
