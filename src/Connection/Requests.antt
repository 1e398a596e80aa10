-- ===== src/Connection/Requests.antt =====
-- Which feedbacks are asked to play when requests arrive.
use touch_feedback.Base.{
  ℕ, zero, suc, ◌≤◌, ◌<◌, ◌≡◌, refl, ◌∙◌, ap, Bool, true, false, Option, none, some, List, [], ◌∷◌,
  arith, ltb, length, if◌then◌else◌,
}
use touch_feedback.Base.Text.{Text, Qt}
use touch_feedback.Base.Dict.{Dict, lookup, is_some}
use touch_feedback.Feedback.{Feedback}
use touch_feedback.Session.{Session}
use touch_feedback.Connection.{
  State, playback, SocketApi, Connection, fetch_playback_request, fetch_loop, emit_play,
  read_socket_data,
}
use touch_feedback.Connection.States.{Consumes, read_all_data}

-- The socket holds these texts, whole, and nothing else; they are read one by one.
abbrev pub Holds : (api : SocketApi) → api.Socket → List Text → api.Socket → Type 0
Holds api s [] end = (api.bytes_available s ≡ 0) × (s ≡ end)
Holds api s (name ∷ names) end =
    (0 < api.bytes_available s)
    × ((next : api.Socket) × (api.read_string true s ≡ (name, true, next))
        × Holds api next names end)

-- The names of a list that have a feedback, in order.
abbrev pub known : Dict Feedback → List Text → List Text
known hash [] = []
known hash (name ∷ names) =
    let rest = known hash names in if is_some (lookup name hash) then name ∷ rest else rest

module _ (qt : Qt) (api : SocketApi) where
  Holds-length :
      Consumes api
      → (s end : api.Socket) (names : List Text) → Holds api s names end
      → length names ≤ api.bytes_available s
  Holds-length consumes s end [] h = omega arith
  Holds-length consumes s end (name ∷ names) (more, (next, e, h)) = omega (
    arith,
    consumes true s more,
    Holds-length consumes next end names h,
    ap (λ (r : Text × Bool × api.Socket). api.bytes_available r.2) e,
  )

  fetched :
      (c : Connection api) (session : Session) (next : api.Socket) (name : Text)
      → c.session ≡ some session
      → api.read_string true c.socket ≡ (name, true, next)
      → fetch_playback_request qt api c
        ≡ some (
          record c { socket = next },
          if is_some (lookup name session.feedback_hash) then some name else none,
        )
  unfolding fetch_playback_request
  fetched c session next name has e =
      let text = ap (λ (r : Text × Bool × api.Socket). r.0) e in
      let ok = ap (λ (r : Text × Bool × api.Socket). r.1) e in
      let after = ap (λ (r : Text × Bool × api.Socket). r.2) e in
      rw (fetch_playback_request, has, ok, text, after)
        (ap
          (λ (there : Option Session). some (
            record c { socket = next; session = there },
            if is_some (lookup name session.feedback_hash) then some name else none,
          ))
          has)

  emitted :
      (b : Bool) (name : Text) (names : List Text)
      → emit_play qt api (if b then some name else none) names ≡ (if b then name ∷ names else names)
  emitted true name names = refl
  emitted false name names = refl

  fetch_loop-known :
      (fuel : ℕ) (c : Connection api) (session : Session) (end : api.Socket) (names : List Text)
      → length names < fuel
      → c.session ≡ some session
      → Holds api c.socket names end
      → fetch_loop qt api fuel c
        ≡ some (some (record c { socket = end }, known session.feedback_hash names))
  unfolding fetch_loop fetch_playback_request
  fetch_loop-known zero c session end names fits has h = absurd (omega arith)
  fetch_loop-known (suc fuel) c session end [] fits has (none_left, same) =
      let ended : ltb 0 (api.bytes_available c.socket) ≡ false = ground (arith, none_left) in
      rw (ended, fetch_loop)
        (ap (λ (s : api.Socket). some (some (record c { socket = s }, []))) same)
  fetch_loop-known (suc fuel) c session end (name ∷ names) fits has (more, (next, e, h)) =
      let there : ltb 0 (api.bytes_available c.socket) ≡ true = ground (arith, more) in
      let rest =
        fetch_loop-known fuel (record c { socket = next }) session end names (omega (arith, fits))
          has h in
      rw (there, fetch_loop, fetched c session next name has e, rest)
        (ap (λ (l : List Text). some (some (record c { socket = end }, l)))
          (emitted (is_some (lookup name session.feedback_hash)) name
            (known session.feedback_hash names)))

  -- In the state of playback, requests that have arrived whole are read to the last one: each name
  -- that the session has a feedback for is asked to play, in the order in which they arrived, the
  -- others are passed over, and nothing else of the connection changes. A read takes something off
  -- the socket.
  pub read_all_data-known :
      (c : Connection api) (session : Session) (end : api.Socket) (names : List Text)
      → Consumes api
      → c.state ≡ playback
      → c.session ≡ some session
      → Holds api c.socket names end
      → read_all_data qt api c
        ≡ some (some (record c { socket = end }, known session.feedback_hash names))
  unfolding read_socket_data
  read_all_data-known c session end names consumes plays has h =
      rw (plays, read_socket_data)
        (fetch_loop-known (suc (api.bytes_available c.socket)) c session end names
            (omega (arith, Holds-length consumes c.socket end names h)) has h
          ∙ ap
              (λ (st : State).
                some
                  (some (record c { state = st; socket = end }, known session.feedback_hash names)))
              plays)
