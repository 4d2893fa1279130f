-- ===== src/Tcp/Server.antt =====
-- TCPServer of src/tcpasio.cpp: the acceptor, which goes on accepting connections.
use camannex.Base.{
  ℕ, ◌+◌, ◌-◌, ◌≡◌, List, [], ◌∷◌, ◌++◌, Bool, true, if◌then◌else◌, arith, sym, append-nil,
  append_assoc, ◌∙◌, ap,
}
use camannex.Base.Int.{ℤ}
use camannex.Buffer.{CircularBuffer}
use camannex.Serial.{ErrorCode, success, failure, value, is_success}
use camannex.Tcp.{Client, start_read}

module _ (cb : CircularBuffer) where
  -- The members of TCPServer. `accepts` counts the asynchronous accepts that wait, `accepted` has the
  -- clients that were handed on, oldest first.
  pub record Server : Type 0 where
    pub is_open : Bool
    pub cbaccept : Bool
    pub accepts : ℕ
    pub accepted : List (Client cb)

  -- TCPServer::RegisterAccespt
  unfoldable pub register_accept : Server → Server
  register_accept s = record s { cbaccept = true }

  -- TCPServer::start_accept
  unfoldable pub start_accept : Server → Server
  start_accept s = if s.is_open then record s { accepts = s.accepts + 1 } else s

  -- TCPServer::CreateServer, with the result `ec` of opening, binding and listening, and whether the
  -- acceptor is open then.
  unfoldable pub create_server : ErrorCode → Bool → Server → Server × ℤ
  unfolding start_accept
  create_server ec opened s =
      let s1 = record s { is_open = opened } in
      (if is_success ec then start_accept s1 else s1, value ec)

  -- TCPServer::handle_accept, with the client that was accepted. `on_accept` is the slot.
  unfoldable pub handle_accept : (Client cb → Client cb) → ErrorCode → Client cb → Server → Server
  unfolding start_accept
  handle_accept on_accept ec client s =
      let s0 = record s { accepts = s.accepts - 1 } in
      let called = if s0.cbaccept then on_accept client else client in
      let s1 =
        if is_success ec
        then record s0 { accepted = s0.accepted ++ start_read cb called ∷ [] }
        else s0 in
      start_accept s1

  -- The server after these connections or failures.
  abbrev pub accept_all : List (ErrorCode × Client cb) → Server → Server
  accept_all [] s = s
  accept_all ((ec, client) ∷ more) s = accept_all more (handle_accept (λ c. c) ec client s)

  -- The clients that were accepted without error, each with its first read started.
  abbrev pub good : List (ErrorCode × Client cb) → List (Client cb)
  good [] = []
  good ((ec, client) ∷ more) =
      let rest = good more in if is_success ec then start_read cb client ∷ rest else rest

  -- While one accept waits on an open acceptor, whatever is accepted and whatever fails: one accept
  -- goes on waiting, and the clients that were accepted without error are handed on in order, each
  -- with a read started if its socket is open, where the slot leaves them alone.
  pub accept_all-goes_on :
      (events : List (ErrorCode × Client cb)) (s : Server)
      → s.is_open ≡ true
      → s.accepts ≡ 1
      → ((accept_all events s).accepts ≡ 1)
        × ((accept_all events s).accepted ≡ s.accepted ++ good events)
  unfolding handle_accept
  accept_all-goes_on [] s o a = (a, sym (append-nil s.accepted))
  accept_all-goes_on ((failure v m, client) ∷ more) s o a =
      let s1 : Server = handle_accept (λ c. c) (failure v m) client s in
      let (one, list) = accept_all-goes_on more s1 (ground arith) (ground arith) in
      (one, list ∙ ap (λ cs. cs ++ good more) (ground arith))
  accept_all-goes_on ((success, client) ∷ more) s o a =
      let s1 : Server = handle_accept (λ c. c) success client s in
      let (one, list) = accept_all-goes_on more s1 (ground arith) (ground arith) in
      let added : s1.accepted ≡ s.accepted ++ start_read cb client ∷ [] = ground arith in
      (
        one,
        list
            ∙ (ap (λ cs. cs ++ good more) added
                ∙ append_assoc s.accepted (start_read cb client ∷ []) (good more)),
      )
