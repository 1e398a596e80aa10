-- ===== src/Connection/States.antt =====
-- What can happen to a connection, what then always holds, and the end of the reading loop.
use touch_feedback.Base.{
  ℕ, zero, suc, ◌≤◌, ◌<◌, ◌≡◌, refl, inl, inr, Bool, true, Option, none, some, List, arith, ltb,
  ltb→lt, Bool-cases, subst,
}
use touch_feedback.Base.Text.{Text, Qt}
use touch_feedback.Session.{Session}
use touch_feedback.Connection.{
  State, waiting_session, playback, SocketApi, Connection, setup, new_connection, setup_ready,
  kill_me, fetch_playback_request, fetch_loop, read_socket_data,
}

-- A session is there in every state in which requests are read or a session is waited for.
abbrev pub HasSession : State → Option Session → Type 0
HasSession playback none = ⊥
HasSession waiting_session none = ⊥
HasSession _ _ = Unit {0}

-- What the loop relies on of the socket: a read takes something off it where there is something.
abbrev pub Consumes : SocketApi → Type 0
Consumes api =
    (ok : Bool) (s : api.Socket)
    → 0 < api.bytes_available s
    → api.bytes_available (api.read_string ok s).2 < api.bytes_available s

-- Closing a socket leaves no more to read than before.
abbrev pub Closes : SocketApi → Type 0
Closes api =
    (s : api.Socket) → api.bytes_available (api.disconnect_from_server s) ≤ api.bytes_available s

module _ (qt : Qt) (api : SocketApi) where
  -- The end of a call of `readSocketData`, if it ends without a fault.
  abbrev pub Ends :
      Option (Option (Connection api × List Text)) → (Connection api → Type 0) → Type 0
  Ends none P = ⊥
  Ends (some none) P = ⊥
  Ends (some (some (c, names))) P = P c

  abbrev pub Sound : Connection api → Type 0
  Sound c = HasSession c.state c.session

  pub setup-Sound : (c : Connection api) → Sound (setup qt api c)
  unfolding setup
  setup-Sound c = ground arith

  pub new_connection-Sound : (s : api.Socket) → Sound (new_connection qt api s)
  unfolding new_connection
  new_connection-Sound s = ground arith

  -- A session outlives the request, and something has been read.
  abbrev Fetched : Connection api → Option (Connection api × Option Text) → Type 0
  Fetched c none = ⊥
  Fetched c (some (c', o)) =
      (HasSession playback c'.session)
      × (HasSession c'.state c'.session)
      × (api.bytes_available c'.socket < api.bytes_available c.socket)

  fetch_lem :
      Consumes api
      → Closes api
      → (c : Connection api) → HasSession playback c.session
      → HasSession c.state c.session
      → 0 < api.bytes_available c.socket
      → Fetched c (fetch_playback_request qt api c)
  unfolding fetch_playback_request
  fetch_lem consumes closes c has sound more =
      ground (arith, consumes true c.socket more, closes (api.read_string true c.socket).2)

  fetch_loop-Sound :
      Consumes api
      → Closes api
      → (fuel : ℕ) (c : Connection api) → HasSession playback c.session
      → HasSession c.state c.session
      → api.bytes_available c.socket < fuel
      → Ends (fetch_loop qt api fuel c) Sound
  unfolding fetch_loop
  fetch_loop-Sound consumes closes zero c has sound fits = elim fits [ ]
  fetch_loop-Sound consumes closes (suc fuel) c has sound fits =
      elim (Bool-cases (ltb 0 (api.bytes_available c.socket))) [
        | inl more ↦
            from (fetch_playback_request qt api c) refl more
              (fetch_lem consumes closes c has sound (ltb→lt 0 _ more))
              (fetch_loop-Sound consumes closes fuel)
        | inr end ↦ ground arith
      ]
    where
      from :
          (r : Option (Connection api × Option Text))
          → fetch_playback_request qt api c ≡ r
          → ltb 0 (api.bytes_available c.socket) ≡ true
          → Fetched c r
          → ((d : Connection api)
              → HasSession playback d.session
              → HasSession d.state d.session
              → api.bytes_available d.socket < fuel
              → Ends (fetch_loop qt api fuel d) Sound)
          → Ends (fetch_loop qt api (suc fuel) c) Sound
      from none e more f ih = absurd f
      from (some (d, o)) e more f ih = ground (arith, ih d f.0 f.1 (omega arith))

  pub read_socket_data-Sound :
      Consumes api
      → Closes api
      → (fuel : ℕ) (c : Connection api) → Sound c
      → api.bytes_available c.socket < fuel
      → Ends (read_socket_data qt api fuel c) Sound
  unfolding read_socket_data
  read_socket_data-Sound consumes closes fuel c sound fits =
      ground (arith, setup-Sound c, fetch_loop-Sound consumes closes fuel c)

  -- `readSocketData` with as much fuel as it needs.
  abbrev pub read_all_data : Connection api → Option (Option (Connection api × List Text))
  read_all_data c = read_socket_data qt api (suc (api.bytes_available c.socket)) c

  -- What the peer does to the socket, a call of `readSocketData`, the end of a session's setup, and
  -- the end of the client or of a timer.
  pub data Step (c d : Connection api) : Type 0 where
    receives : (socket : api.Socket) → d ≡ record c { socket = socket } → Step c d
    reads : (names : List Text) → read_all_data c ≡ some (some (d, names)) → Step c d
    readied : (s : Session) → c.session ≡ some s → d ≡ setup_ready qt api c → Step c d
    killed : d ≡ kill_me qt api c → Step c d

  pub data Reach (s : api.Socket) : Connection api → Type 0 where
    here : (c : Connection api) → c ≡ new_connection qt api s → Reach s c
    next : (c d : Connection api) → Reach s c → Step c d → Reach s d

  Step-Sound : Consumes api → Closes api → (c d : Connection api) → Sound c → Step c d → Sound d
  unfolding setup_ready kill_me
  Step-Sound consumes closes c d sound (receives socket e) = rw e sound
  Step-Sound consumes closes c d sound (reads names e) =
      subst (λ (r : Option (Option (Connection api × List Text))). Ends r Sound) e
        (read_socket_data-Sound consumes closes (suc (api.bytes_available c.socket)) c sound
          (omega arith))
  Step-Sound consumes closes c d sound (readied s has e) = rw (e, has) tt
  Step-Sound consumes closes c d sound (killed e) = rw e (ground arith)

  Reach-Sound :
      Consumes api → Closes api → (s : api.Socket) (c : Connection api) → Reach s c → Sound c
  Reach-Sound consumes closes s c (here _ e) = rw e (new_connection-Sound s)
  Reach-Sound consumes closes s d (next c _ r st) =
      Step-Sound consumes closes c d (Reach-Sound consumes closes s c r) st

  -- Over a socket from which each read takes something and which closing does not fill, a
  -- connection that is reached from its construction has a session in every state that needs one,
  -- and a call of `readSocketData` then ends, without the use of a session that is not there, in
  -- such a connection again.
  read_all_data_safe :
      Consumes api
      → Closes api
      → (s : api.Socket) (c : Connection api) → Reach s c
      → Sound c × Ends (read_all_data c) Sound
  read_all_data_safe consumes closes s c r =
      let sound = Reach-Sound consumes closes s c r in
      (
        sound,
        read_socket_data-Sound consumes closes (suc (api.bytes_available c.socket)) c sound
            (omega arith),
      )
