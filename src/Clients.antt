-- ===== src/Clients.antt =====
-- The daemon while its event loop runs: the connections of src/daemon/mfserver.cpp and
-- src/daemon/mfconnection.cpp with their sessions, over the manager. Each event is one call of a slot,
-- a constructor or a destructor. A request to play is a queued signal of a feedback
-- (src/lib/mffeedback.cpp): it waits until the event loop delivers it.
pub mod Reading
pub mod Sessions
pub mod Moves
pub mod Refines
pub mod Invariant
pub mod Steps
pub mod Requests
pub mod Leaving
pub mod Serving
use touch_feedback.Base.{
  ℕ, ◌+◌, ◌*◌, ◌/◌, ◌≡◌, Bool, true, false, Option, none, some, List, [], ◌∷◌, ◌++◌, map,
  if◌then◌else◌,
}
use touch_feedback.Base.Int.{ℤ, pos}
use touch_feedback.Base.Text.{Text, Qt}
use touch_feedback.Base.Dict.{lookup}
use touch_feedback.World.{Platform, World}
use touch_feedback.Feedback.{Feedback, play_feedback}
use touch_feedback.Theme.{done}
use touch_feedback.Session.{Session, setup, theme_changed}
use touch_feedback.Connection.{
  State, client_setup, waiting_session, terminated, SocketApi, Connection, new_connection,
  setup_ready, kill_me,
}
use touch_feedback.Connection.States.{read_all_data}
use touch_feedback.System.{IsStart, ManagerStep}
use touch_feedback.System.Ending.{end_sessions}

-- A feedback's name with the time stamp of the request.
abbrev pub Request : Type 0
Request = Text × ℤ

-- `getTimestamp`, from the seconds and nanoseconds of the clock.
unfoldable pub get_timestamp : ℕ → ℕ → ℤ
get_timestamp tv_sec tv_nsec = pos (tv_sec * 1000000 + tv_nsec / 1000)

-- A session with the requests that its feedbacks have still to answer, oldest first.
pub record Child : Type 0 where
  pub session : Session
  pub requests : List Request

module _ (api : SocketApi) where
  -- A connection, whose current session is in its own field, the requests for this one, and the
  -- sessions that it had before: they stay the connection's children, oldest first.
  pub record Client : Type 0 where
    pub connection : Connection api
    pub requests : List Request
    pub left : List Child

  pub record Clients : Type 0 where
    pub world : World
    pub clients : List Client

  abbrev pub option_list : Option Session → List Session
  option_list none = []
  option_list (some x) = x ∷ []

  abbrev pub left_sessions : List Child → List Session
  left_sessions [] = []
  left_sessions (l ∷ left) = l.session ∷ left_sessions left

  -- The sessions of a client, in the order in which they were created.
  abbrev pub sessions_of : Client → List Session
  sessions_of k = left_sessions k.left ++ option_list k.connection.session

  abbrev pub all_sessions : List Client → List Session
  all_sessions [] = []
  all_sessions (k ∷ clients) = sessions_of k ++ all_sessions clients

  -- Whether a call of `readSocketData` that leads from one state to the other created a session.
  abbrev pub creates : State → State → Bool
  creates client_setup waiting_session = true
  creates terminated waiting_session = true
  creates _ _ = false

  -- The session that a new one replaces.
  abbrev pub replaced : Client → List Child
  replaced k = elim k.connection.session [
    | none ↦ []
    | some x ↦ record { session = x; requests = k.requests } ∷ []
  ]

  abbrev pub stamp : Text × ℕ × ℕ → Request
  stamp (name, tv_sec, tv_nsec) = (name, get_timestamp tv_sec tv_nsec)

  abbrev pub names_of : List (Text × ℕ × ℕ) → List Text
  names_of [] = []
  names_of ((name, tv_sec, tv_nsec) ∷ asked) = name ∷ names_of asked

  -- The client after `readSocketData` has left the connection `d` and sent these requests.
  unfoldable pub after_read : Client → Connection api → List (Text × ℕ × ℕ) → Client
  after_read k d asked =
      if creates k.connection.state d.state
      then record { connection = d; requests = []; left = k.left ++ replaced k }
      else record k { connection = d; requests = k.requests ++ map stamp asked }

  -- What `setupReady` of a session does to its connection.
  abbrev pub after_setup : Qt → Bool → Client → Client
  after_setup qt ready k =
      if ready then record k { connection = setup_ready qt api k.connection } else k

  -- A session of the client changes.
  pub data Replaces (k l : Client) (x y : Session) : Type 0 where
    current :
        k.connection.session ≡ some x
        → l ≡ record k { connection = record k.connection { session = some y } }
        → Replaces k l x y
    earlier :
        (before after : List Child) (requests : List Request)
        → k.left ≡ before ++ record { session = x; requests = requests } ∷ after
        → l ≡ record k { left = before ++ record { session = y; requests = requests } ∷ after }
        → Replaces k l x y

  -- The oldest request that waits for a feedback of the session is taken away.
  pub data Delivers (k l : Client) (x : Session) (r : Request) : Type 0 where
    current :
        (requests : List Request)
        → k.connection.session ≡ some x
        → k.requests ≡ r ∷ requests
        → l ≡ record k { requests = requests }
        → Delivers k l x r
    earlier :
        (before after : List Child) (requests : List Request)
        → k.left ≡ before ++ record { session = x; requests = r ∷ requests } ∷ after
        → l ≡ record k { left = before ++ record { session = x; requests = requests } ∷ after }
        → Delivers k l x r

module _ (qt : Qt) (api : SocketApi) where
  -- `onNewConnection`.
  unfoldable pub on_new_connection : api.Socket → List (Client api) → List (Client api)
  unfolding new_connection
  on_new_connection socket clients =
      clients ++ record { connection = new_connection qt api socket; requests = []; left = [] } ∷ []

  -- What a connection does that leaves its sessions and requests alone: the peer uses the socket, or
  -- `killMe` is called, by the end of the client or by its timer.
  pub data ConnectionStep (c d : Connection api) : Type 0 where
    receives : (socket : api.Socket) → d ≡ record c { socket = socket } → ConnectionStep c d
    killed : d ≡ kill_me qt api c → ConnectionStep c d

  -- `before` and `after` are the clients that the event does not concern.
  pub data Step (p : Platform) (s t : Clients api) : Type 0 where
    arrives :
        (socket : api.Socket)
        → t ≡ record s { clients = on_new_connection socket s.clients }
        → Step p s t
    connection_changes :
        (before after : List (Client api)) (k : Client api) (d : Connection api)
        → s.clients ≡ before ++ k ∷ after
        → ConnectionStep k.connection d
        → t ≡ record s { clients = before ++ record k { connection = d } ∷ after }
        → Step p s t
    reads :
        (before after : List (Client api)) (k : Client api) (d : Connection api)
        (asked : List (Text × ℕ × ℕ))
        → s.clients ≡ before ++ k ∷ after
        → read_all_data qt api k.connection ≡ some (some (d, names_of api asked))
        → t ≡ record s { clients = before ++ after_read api k d asked ∷ after }
        → Step p s t
    sets_up :
        (before after : List (Client api)) (k l : Client api) (x y : Session) (w : World) (fuel : ℕ)
        (in_progress flag ready : Bool)
        → s.clients ≡ before ++ k ∷ after
        → x.setup_finished ≡ false
        → Replaces api k l x y
        → setup p fuel in_progress x s.world ≡ done (flag, ready, y, w)
        → t ≡ record { world = w; clients = before ++ after_setup api qt ready l ∷ after }
        → Step p s t
    changes_theme :
        (before after : List (Client api)) (k l : Client api) (x y : Session) (w : World) (fuel : ℕ)
        (theme : Text)
        → s.clients ≡ before ++ k ∷ after
        → Replaces api k l x y
        → theme_changed p fuel theme x s.world ≡ done (y, w)
        → t ≡ record { world = w; clients = before ++ l ∷ after }
        → Step p s t
    plays :
        (before after : List (Client api)) (k l : Client api) (x : Session) (name : Text)
        (timestamp limit now : ℤ) (f : Feedback) (w : World)
        → s.clients ≡ before ++ k ∷ after
        → Delivers api k l x (name, timestamp)
        → lookup name x.feedback_hash ≡ some f
        → play_feedback p limit now timestamp f s.world ≡ some w
        → t ≡ record { world = w; clients = before ++ l ∷ after }
        → Step p s t
    deleted :
        (before after : List (Client api)) (k : Client api)
        → s.clients ≡ before ++ k ∷ after
        → k.connection.delete_later ≡ true
        → t
          ≡ record { world = end_sessions p (sessions_of api k) s.world; clients = before ++ after }
        → Step p s t
    manages : (u : World) → ManagerStep s.world u → t ≡ record s { world = u } → Step p s t

  pub data Reach (p : Platform) : Clients api → Type 0 where
    start : (w : World) → IsStart w → Reach p (record { world = w; clients = [] })
    next : (s t : Clients api) → Reach p s → Step p s t → Reach p t
