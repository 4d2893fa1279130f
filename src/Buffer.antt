-- ===== src/Buffer.antt =====
-- boost::circular_buffer<char>, which SerialComm and TCPClient keep their bytes in: a parameter of
-- the model, with the documented behaviour of the operations that they call.
pub mod Push
pub mod ListBuffer
use camannex.Base.{ℕ, ◌+◌, ◌≤◌, ◌<◌, ◌≡◌, [], ◌∷◌, ◌++◌, Bytes, length, drop}

pub record CircularBuffer : Type 1 where
  pub Buf : Type 0
  -- what `buf[0]` to `buf[size() - 1]` hold
  pub items : Buf → Bytes
  pub capacity : Buf → ℕ
  pub push_back : Buf → ℕ → Buf
  pub erase_begin : Buf → ℕ → Buf
  pub clear : Buf → Buf
  pub set_capacity : Buf → ℕ → Buf
  pub items-le : (b : Buf) → length (items b) ≤ capacity b
  pub push_back_room :
      (b : Buf) (x : ℕ) → length (items b) < capacity b → items (push_back b x) ≡ items b ++ x ∷ []
  -- a full buffer drops its oldest byte
  pub push_back_full :
      (b : Buf) (x : ℕ)
      → length (items b) ≡ capacity b
      → items (push_back b x) ≡ drop 1 (items b ++ x ∷ [])
  pub capacity-push_back : (b : Buf) (x : ℕ) → capacity (push_back b x) ≡ capacity b
  pub items-erase_begin :
      (b : Buf) (n : ℕ) → n ≤ length (items b) → items (erase_begin b n) ≡ drop n (items b)
  pub capacity-erase_begin : (b : Buf) (n : ℕ) → capacity (erase_begin b n) ≡ capacity b
  pub items-clear : (b : Buf) → items (clear b) ≡ []
  pub capacity-clear : (b : Buf) → capacity (clear b) ≡ capacity b
  pub items-set_capacity :
      (b : Buf) (n : ℕ) → length (items b) ≤ n → items (set_capacity b n) ≡ items b
  pub capacity-set_capacity : (b : Buf) (n : ℕ) → capacity (set_capacity b n) ≡ n
