-- ===== src/Clients/Serving.antt =====
-- The way of a client of the daemon from its connection to its first requests.
use touch_feedback.Base.{
  ℕ, ◌<◌, ◌≡◌, refl, ◌∙◌, sym, ap, true, false, some, List, [], ◌∷◌, ◌++◌, arith, length, map, ltb,
}
use touch_feedback.Base.Int.{pos}
use touch_feedback.Base.Text.{Text, Qt}
use touch_feedback.World.{Platform, World}
use touch_feedback.Theme.{dir_lists}
use touch_feedback.Theme.Chain.{IsChain}
use touch_feedback.Theme.Names.{feedback_names}
use touch_feedback.Session.{Session, new_session, map_feedbacks}
use touch_feedback.Session.Ends.{setup-mapped}
use touch_feedback.Connection.{
  playback, waiting_session, version_1, SocketApi, Connection, setup_ready, new_connection,
  protocol_version_prefix, setup,
}
use touch_feedback.Connection.States.{Consumes}
use touch_feedback.Connection.Requests.{Holds, known, read_all_data-known}
use touch_feedback.Clients.{
  Clients, names_of, stamp, after_read, on_new_connection, current, receives, arrives,
  connection_changes, sets_up, reads,
}
use touch_feedback.Clients.Leaving.{Run, here, then}

module _ (qt : Qt) (api : SocketApi) (p : Platform) where
  -- The connection of a client that is set up, with its session.
  abbrev pub served : api.Socket → Text → Session → Connection api
  served socket name x = record {
    state = playback;
    socket = socket;
    session = some x;
    client_name = name;
    client_feedback_protocol_version = version_1;
    delete_later = false;
    kill_timer = false;
  }

  -- The session of an application of that name once it is set up.
  abbrev pub set_up : World → Text → Text → List Text → Session
  set_up w name d dirs = record (map_feedbacks p (dir_lists p name d dirs) (new_session name) w).0 {
    setup_finished = true;
  }

  abbrev joined : Clients api → Connection api → Clients api
  joined s c = record s {
    clients = s.clients ++ record { connection = c; requests = []; left = [] } ∷ [];
  }

  greeted :
      (a b c : api.Socket) (number name : Text)
      → 0 < api.bytes_available a
      → api.read_string true a ≡ (protocol_version_prefix ++ number, true, b)
      → qt.to_int number ≡ some (pos 1)
      → api.read_string true b ≡ (name, true, c)
      → new_connection qt api a
        ≡ record (served c name (new_session name)) { state = waiting_session }
  unfolding new_connection setup
  greeted a b c number name there r1 num r2 =
      let some_there : ltb 0 (api.bytes_available a) ≡ true = ground (arith, there) in
      rw (some_there, r1, num, r2) refl

  -- A client that connects, sends its version and its name, and once its session is set up sends
  -- requests, can be served by these four events alone: it is then a client in the state of playback,
  -- whose session has the feedbacks of the theme's chain, and the requests that wait are those whose
  -- name is one of these feedbacks, in the order in which they were sent. The version must read as 1,
  -- the current theme have a declared chain and its first directory a feedback for the application,
  -- and a read take something off the socket.
  pub Run-serves :
      Consumes api
      → (s : Clients api) (a b c e end : api.Socket) (number name d : Text) (dirs names : List Text)
        (asked : List (Text × ℕ × ℕ))
      → 0 < api.bytes_available a
      → api.read_string true a ≡ (protocol_version_prefix ++ number, true, b)
      → qt.to_int number ≡ some (pos 1)
      → api.read_string true b ≡ (name, true, c)
      → IsChain p s.world.current_theme_name (d ∷ dirs)
      → 0 < length (feedback_names p name d)
      → Holds api e names end
      → names_of api asked ≡ known (set_up s.world name d dirs).feedback_hash names
      → Run qt api p s (record {
        world = (map_feedbacks p (dir_lists p name d dirs) (new_session name) s.world).1;
        clients =
            s.clients
            ++ record {
              connection = served end name (set_up s.world name d dirs);
              requests = map (stamp api) asked;
              left = [];
            }
              ∷ [];
      })
  unfolding on_new_connection setup_ready after_read new_session
  Run-serves consumes s a b c e end number name d dirs names asked there r1 num r2 chain more holds
        eq =
      let x = set_up s.world name d dirs in
      let waits = record (served c name (new_session name)) { state = waiting_session } in
      let s1 = joined s waits in
      let w = (map_feedbacks p (dir_lists p name d dirs) (new_session name) s.world).1 in
      let s2 = record (joined s (served c name x)) { world = w } in
      let s3 = record (joined s (served e name x)) { world = w } in
      let came =
        then s s1 (here s refl)
          (arrives a (ap (joined s) (sym (greeted a b c number name there r1 num r2)))) in
      let ready = then s1 s2 came (
        sets_up s.clients [] _ _ (new_session name) x w _ false false true refl refl
          (current refl refl) (setup-mapped p (new_session name) s.world d dirs chain more 0)
          refl) in
      let sent =
        then s2 s3 ready
          (connection_changes s.clients [] _ (served e name x) refl (receives e refl) refl) in
      then s3 _ sent (
        reads s.clients [] _ (served end name x) asked refl
          (read_all_data-known qt api (served e name x) x end names consumes refl refl holds
            ∙ ap (λ (l : List Text). some (some (served end name x, l))) (sym eq))
          refl)
