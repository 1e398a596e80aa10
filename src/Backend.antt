-- ===== src/Backend.antt =====
-- src/lib/mfbackendbase.h and mfbackendbase.cpp: the connection of one backend (`Connector`), and
-- the wrappers round the calls of its plugin. A plugin is code that is loaded at run time: what it
-- answers is a parameter (`Plugin`). The slots run in the daemon's main thread; the attempt that
-- `QtConcurrent::run` makes is the flag `attempt`, and its end is the event `finished`.
pub mod Schedule
pub mod Reconnect
pub mod Ledger
use touch_feedback.Base.{
  ℕ, suc, ◌+◌, ◌-◌, ◌<◌, ◌≡◌, Bool, true, false, not, ◌||◌, Option, none, some, List, [], ◌∷◌, ltb,
  if◌then◌else◌, length, get_elem?,
}
use touch_feedback.Base.Text.{Text, codes}

pub data State : Type 0 where
  disconnected connecting connected : State

pub data PlaybackVolume : Type 0 where
  volume_high volume_medium volume_low volume_off : PlaybackVolume

abbrev pub volume_high_id : Text
volume_high_id = codes "high"

abbrev pub volume_medium_id : Text
volume_medium_id = codes "medium"

abbrev pub volume_low_id : Text
volume_low_id = codes "low"

abbrev pub volume_off_id : Text
volume_off_id = codes "off"

abbrev pub is_connected : State → Bool
is_connected disconnected = false
is_connected connecting = false
is_connected connected = true

abbrev pub is_off : PlaybackVolume → Bool
is_off volume_high = false
is_off volume_medium = false
is_off volume_low = false
is_off volume_off = true

-- What stands in a backend between two events: the interval of the running timer if there is one,
-- and whether an attempt to connect is under way.
pub record Connector : Type 0 where
  pub failed_connections : ℕ
  pub current_state : State
  pub timer : Option ℕ
  pub attempt : Bool

abbrev pub connection_intervals : List ℕ
connection_intervals = 500 ∷ 1000 ∷ 5000 ∷ 10000 ∷ 30000 ∷ 120000 ∷ []

-- The constructor.
pub new_connector : Connector
new_connector = record {
  failed_connections = 0;
  current_state = disconnected;
  timer = none;
  attempt = false;
}

-- The interval that `tryConnect` chooses once `failedConnections` stands at n: `none` if the list
-- is read out of its range.
unfoldable pub interval : ℕ → Option ℕ
interval n =
    if ltb n (length connection_intervals)
    then get_elem? connection_intervals n
    else get_elem? connection_intervals (length connection_intervals - 1)

-- `timer.start(interval)`, if the timer is not active.
abbrev start_timer : Option ℕ → Option ℕ → Option ℕ
start_timer n none = n
start_timer n (some old) = some old

unfoldable pub try_connect : Connector → Connector
unfolding interval
try_connect c = record c {
  current_state = connecting;
  failed_connections = suc c.failed_connections;
  timer = start_timer (interval (suc c.failed_connections)) c.timer;
}

-- The new state, and whether `establishedConnection` is emitted. The watcher has ended.
unfoldable pub connection_done : Bool → Connector → Connector × Bool
unfolding try_connect
connection_done false c = (try_connect (record c { attempt = false }), false)
connection_done true c =
    (record c { attempt = false; current_state = connected; failed_connections = 0 }, true)

-- The slot `connecting`: an attempt is scheduled in another thread.
unfoldable pub connecting_slot : Connector → Connector
connecting_slot c = record c { attempt = true }

-- `cleanup`: a running attempt is waited for, and the timer stops. The signals are cut, so the
-- attempt's result is not read.
unfoldable pub cleanup : Connector → Connector
cleanup c = record c { attempt = false; timer = none }

-- What a plugin was asked, newest first.
pub data Call : Type 0 where
  loads : ℕ → Text → Call
  unloads : ℕ → ℕ → Call
  plays : ℕ → ℕ → PlaybackVolume → Call

-- A plugin's part, for each backend: its name, whether its hardware is there, and what `loadHandle`
-- returns and leaves in the handle, which may depend on all earlier calls.
pub record Plugin : Type 0 where
  pub name : ℕ → Text
  pub detect_hardware : ℕ → Bool
  pub load_handle : List Call → ℕ → Text → Bool × Option ℕ

-- `loadHandleWrapper`, with the state of the backend, the calls so far and the handle as it was:
-- whether loading succeeded, the handle, and the calls.
unfoldable pub load_handle_wrapper :
    Plugin → ℕ → State → Text → Option ℕ → List Call → Bool × Option ℕ × List Call
load_handle_wrapper plugin b state dir handle calls =
    if is_connected state
    then (let (ok, loaded) = plugin.load_handle calls b dir in (ok, loaded, loads b dir ∷ calls))
    else (false, handle, calls)

-- `unloadHandleWrapper`
unfoldable pub unload_handle_wrapper : ℕ → Option ℕ → List Call → List Call
unload_handle_wrapper b none calls = calls
unload_handle_wrapper b (some handle) calls = unloads b handle ∷ calls

-- `playWrapper`
unfoldable pub play_wrapper : ℕ → State → Option ℕ → PlaybackVolume → List Call → List Call
play_wrapper b state none volume calls = calls
play_wrapper b state (some handle) volume calls =
    if is_off volume || not (is_connected state) then calls else plays b handle volume ∷ calls
