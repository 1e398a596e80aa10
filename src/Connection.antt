-- ===== src/Connection.antt =====
-- src/daemon/mfconnection.cpp: the connection to one client. The socket and Qt's stream over it are
-- a parameter (`SocketApi`). A call of `deleteLater` and a timer for `killMe` are noted in the state;
-- a request to play is a feedback's name with the time stamp.
pub mod States
pub mod Handshake
pub mod Requests
use touch_feedback.Base.{
  ℕ, zero, suc, ◌+◌, ◌<◌, Bool, true, false, not, ◌||◌, Option, none, some, List, [], ◌∷◌, ◌++◌,
  ltb, if◌then◌else◌, length, drop,
}
use touch_feedback.Base.Int.{ℤ, pos, negsuc}
use touch_feedback.Base.Text.{Text, Qt, codes, starts_with}
use touch_feedback.Base.Dict.{lookup, is_some}
use touch_feedback.Session.{Session, new_session}

pub data State : Type 0 where
  client_setup waiting_session playback terminated doomed : State

pub data ProtocolVersion : Type 0 where
  unknown version_1 : ProtocolVersion

-- `read_string` is `stream >> text`: from the stream's status (`true` for Ok) and the socket, the
-- text, the status and the socket after it.
pub record SocketApi : Type 1 where
  pub Socket : Type 0
  pub bytes_available : Socket → ℕ
  pub read_string : Bool → Socket → Text × Bool × Socket
  pub read_all : Socket → Socket
  pub disconnect_from_server : Socket → Socket

abbrev pub protocol_version_prefix : Text
protocol_version_prefix = codes "FeedbackProtocolVersion#"

abbrev pub is_unknown : ProtocolVersion → Bool
is_unknown unknown = true
is_unknown version_1 = false

module _ (api : SocketApi) where
  pub record Connection : Type 0 where
    pub state : State
    pub socket : api.Socket
    pub session : Option Session
    pub client_name : Text
    pub client_feedback_protocol_version : ProtocolVersion
    pub delete_later : Bool
    pub kill_timer : Bool

module _ (qt : Qt) (api : SocketApi) where
  abbrev pub is_version_1 : Option ℤ → Bool
  is_version_1 none = false
  is_version_1 (some (negsuc n)) = false
  is_version_1 (some (pos zero)) = false
  is_version_1 (some (pos (suc zero))) = true
  is_version_1 (some (pos (suc (suc n)))) = false

  -- The reading part of `setup`: the stream's status at the end, and the connection.
  unfoldable pub read_client : Connection api → Bool × Connection api
  read_client c =
      let (text, ok, s) = api.read_string true c.socket in
      if starts_with text protocol_version_prefix
      then (if is_version_1 (qt.to_int (drop (length protocol_version_prefix) text))
          then (let (name, ok', s') = api.read_string ok s in
              (
                ok',
                record c {
                  socket = s';
                  client_name = name;
                  client_feedback_protocol_version = version_1;
                },
              ))
          else (ok, record c { socket = s }))
      else (
        ok,
        record c { socket = s; client_name = text; client_feedback_protocol_version = version_1 },
      )

  unfoldable pub setup : Connection api → Connection api
  unfolding read_client
  setup c =
      let (ok, c') = read_client c in
      if not ok || is_unknown c'.client_feedback_protocol_version
      then record c' { state = doomed }
      else record c' { state = waiting_session; session = some (new_session c'.client_name) }

  -- The constructor.
  unfoldable pub new_connection : api.Socket → Connection api
  unfolding setup
  new_connection s =
      let c : Connection api = record {
        state = client_setup;
        socket = s;
        session = none;
        client_name = [];
        client_feedback_protocol_version = unknown;
        delete_later = false;
        kill_timer = false;
      } in
      if ltb 0 (api.bytes_available s) then setup c else c

  -- The slot `setupReady`.
  unfoldable pub setup_ready : Connection api → Connection api
  setup_ready c = record c { state = playback }

  -- `killMe`: a session that is being set up puts the deletion off.
  unfoldable pub kill_me : Connection api → Connection api
  kill_me c = elim c.state [
    | waiting_session ↦ record c { kill_timer = true }
    | _ ↦ record c { delete_later = true }
  ]

  unfoldable pub terminate : Connection api → Connection api
  unfolding kill_me
  terminate c =
      kill_me (record c { socket = api.disconnect_from_server c.socket; state = terminated })

  -- `fetchPlaybackRequest`: the connection, and the feedback that is asked to play. `none` is the
  -- use of a session that is not there.
  unfoldable pub fetch_playback_request : Connection api → Option (Connection api × Option Text)
  unfolding terminate
  fetch_playback_request c =
      let (name, ok, s) = api.read_string true c.socket in
      let c' : Connection api = record c { socket = s } in
      if not ok then some (terminate c', none) else (elim c.session [
        | none ↦ none
        | some session ↦
            some (c', if is_some (lookup name session.feedback_hash) then some name else none)
      ])

  abbrev pub emit_play : Option Text → List Text → List Text
  emit_play none names = names
  emit_play (some name) names = name ∷ names

  -- `while (socket->bytesAvailable() > 0) fetchPlaybackRequest();` on fuel, with the names that are
  -- asked to play in order. The outer `none` is used up fuel, the inner one that of the fetch.
  unfoldable pub fetch_loop : ℕ → Connection api → Option (Option (Connection api × List Text))
  unfolding fetch_playback_request
  fetch_loop zero c = none
  fetch_loop (suc fuel) c = elim (ltb 0 (api.bytes_available c.socket)) [
    | false ↦ some (some (c, []))
    | true ↦ elim (fetch_playback_request c) [
      | none ↦ some none
      | some (c', played) ↦ elim (fetch_loop fuel c') [
        | none ↦ none
        | some none ↦ some none
        | some (some (c'', names)) ↦ some (some (c'', emit_play played names))
      ]
    ]
  ]

  -- The slot `readSocketData`.
  unfoldable pub read_socket_data :
      ℕ → Connection api → Option (Option (Connection api × List Text))
  unfolding fetch_loop setup
  read_socket_data fuel c = elim c.state [
    | playback ↦ fetch_loop fuel c
    | doomed ↦ some (some (record c { socket = api.read_all c.socket }, []))
    | waiting_session ↦ some (some (record c { socket = api.read_all c.socket }, []))
    | client_setup ↦ some (some (setup c, []))
    | terminated ↦ some (some (setup c, []))
  ]
