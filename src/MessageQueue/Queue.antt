-- ===== src/MessageQueue/Queue.antt =====
-- boost::interprocess::message_queue, as MessageQueue uses it.
use camannex.Base.{
  ℕ, ◌<◌, ◌≡◌, refl, List, [], ◌∷◌, Option, none, some, true, if◌then◌else◌, leb, length, arith,
  ltb,
}

-- Behind all messages of its priority and above.
abbrev pub insert_by {ℓ} : {A : Type ℓ} → ℕ → A → List (ℕ × A) → List (ℕ × A)
insert_by p m [] = (p, m) ∷ []
insert_by p m ((q, k) ∷ rest) =
    let behind = insert_by p m rest in if leb p q then (q, k) ∷ behind else (p, m) ∷ (q, k) ∷ rest

-- `order` lists the waiting messages as receive takes them, with their priorities.
pub record PriorityQueue (A : Type 0) : Type 1 where
  pub Q : Type 0
  pub order : Q → List (ℕ × A)
  pub max_msg : Q → ℕ
  -- `none`: send waits, since the queue is full
  pub send : Q → ℕ → A → Option Q
  -- `none`: receive waits, since the queue is empty
  pub receive : Q → Option (A × Q)
  pub send_room :
      (q : Q) (p : ℕ) (m : A)
      → length (order q) < max_msg q
      → (r : Q) × (send q p m ≡ some r)
        × (order r ≡ insert_by p m (order q))
        × (max_msg r ≡ max_msg q)
  pub receive_next :
      (q : Q) (p : ℕ) (m : A) (rest : List (ℕ × A))
      → order q ≡ (p, m) ∷ rest
      → (r : Q) × (receive q ≡ some (m, r)) × (order r ≡ rest) × (max_msg r ≡ max_msg q)

module _ {A : Type 0} where
  abbrev pub list_send : ℕ × List (ℕ × A) → ℕ → A → Option (ℕ × List (ℕ × A))
  list_send (c, xs) p m = if ltb (length xs) c then some (c, insert_by p m xs) else none

  abbrev pub list_receive : ℕ × List (ℕ × A) → Option (A × (ℕ × List (ℕ × A)))
  list_receive (c, []) = none
  list_receive (c, (p, m) ∷ xs) = some (m, (c, xs))

  pub list_send_room :
      (q : ℕ × List (ℕ × A)) (p : ℕ) (m : A)
      → length q.1 < q.0
      → (r : ℕ × List (ℕ × A)) × (list_send q p m ≡ some r)
        × (r.1 ≡ insert_by p m q.1)
        × (r.0 ≡ q.0)
  list_send_room (c, xs) p m h =
      let e : ltb (length xs) c ≡ true = ground arith in ((c, insert_by p m xs), rw e, refl, refl)

  pub list_receive_next :
      (q : ℕ × List (ℕ × A)) (p : ℕ) (m : A) (rest : List (ℕ × A))
      → q.1 ≡ (p, m) ∷ rest
      → (r : ℕ × List (ℕ × A)) × (list_receive q ≡ some (m, r)) × (r.1 ≡ rest) × (r.0 ≡ q.0)
  list_receive_next (c, xs) p m rest e = ((c, rest), rw e, refl, refl)

-- A bounded list, as such a queue.
abbrev pub list_queue : (A : Type 0) → PriorityQueue A
list_queue A = record {
  Q = ℕ × List (ℕ × A);
  order = λ q. q.1;
  max_msg = λ q. q.0;
  send = list_send;
  receive = list_receive;
  send_room = list_send_room;
  receive_next = list_receive_next;
}
