-- ===== src/System.antt =====
-- The parts of src/lib together: the sessions of all clients over one manager, with the events of the
-- daemon's event loop in any order. Each event is one call of a slot, a constructor or a destructor.
pub mod Counts
pub mod Invariant
pub mod Steps
pub mod Outcomes
pub mod Staying
pub mod Placing
pub mod Themes
pub mod Loading
pub mod Following
pub mod Memory
pub mod Ending
use touch_feedback.Base.{
  ℕ, ◌≤◌, ◌≡◌, Bool, Option, none, some, List, [], ◌∷◌, ◌++◌, length, Distinct,
}
use touch_feedback.Base.Int.{ℤ}
use touch_feedback.Base.Text.{Text}
use touch_feedback.Base.Dict.{lookup}
use touch_feedback.Backend.{PlaybackVolume, Connector}
use touch_feedback.World.{Platform, World}
use touch_feedback.Feedback.{Feedback, play_feedback}
use touch_feedback.Theme.{done}
use touch_feedback.Session.{Session, new_session, setup, theme_changed, destroy_session}
use touch_feedback.Configuration.{set_volume}
use touch_feedback.Plugins.{load_theme, backend_connected, backend_disconnected}

pub record System : Type 0 where
  pub world : World
  pub sessions : List Session

-- What the manager's `init` leaves: no handle, an empty cache, and no call made yet.
pub record IsStart (w : World) : Type 0 where
  pub backends : Distinct w.backend_list
  pub direct : w.non_threaded_backend_count ≤ length w.backend_list
  pub no_object : (o : ℕ) → w.object o ≡ none
  pub no_entry : w.feedback_handle_hash ≡ []
  pub no_call : w.calls ≡ []

-- What happens to the manager alone.
pub data ManagerStep (w u : World) : Type 0 where
  backend_connects : (b : ℕ) → u ≡ (backend_connected (some b) w).0 → ManagerStep w u
  backend_disconnects : (b : ℕ) → u ≡ backend_disconnected (some b) w → ManagerStep w u
  connections_change : (f : ℕ → Connector) → u ≡ record w { connector = f } → ManagerStep w u
  sets_volume :
      (priority : ℤ) (name : Text) (v : PlaybackVolume)
      → set_volume priority name v w ≡ some u
      → ManagerStep w u
  loads_theme : (theme : Text) → u ≡ (load_theme theme w).0 → ManagerStep w u

-- `before` and `after` are the sessions that the event does not concern.
pub data Step (p : Platform) (s t : System) : Type 0 where
  connects :
      (before after : List Session) (name : Text)
      → s.sessions ≡ before ++ after
      → t ≡ record s { sessions = before ++ new_session name ∷ after }
      → Step p s t
  sets_up :
      (before after : List Session) (x y : Session) (w : World) (fuel : ℕ)
      (in_progress flag ready : Bool)
      → s.sessions ≡ before ++ x ∷ after
      → setup p fuel in_progress x s.world ≡ done (flag, ready, y, w)
      → t ≡ record { world = w; sessions = before ++ y ∷ after }
      → Step p s t
  changes_theme :
      (before after : List Session) (x y : Session) (w : World) (fuel : ℕ) (theme : Text)
      → s.sessions ≡ before ++ x ∷ after
      → theme_changed p fuel theme x s.world ≡ done (y, w)
      → t ≡ record { world = w; sessions = before ++ y ∷ after }
      → Step p s t
  ends :
      (before after : List Session) (x : Session)
      → s.sessions ≡ before ++ x ∷ after
      → t ≡ record { world = destroy_session p x s.world; sessions = before ++ after }
      → Step p s t
  plays :
      (before after : List Session) (x : Session) (name : Text) (f : Feedback) (w : World)
      (limit now timestamp : ℤ)
      → s.sessions ≡ before ++ x ∷ after
      → lookup name x.feedback_hash ≡ some f
      → play_feedback p limit now timestamp f s.world ≡ some w
      → t ≡ record s { world = w }
      → Step p s t
  manages : (u : World) → ManagerStep s.world u → t ≡ record s { world = u } → Step p s t

pub data Reach (p : Platform) : System → Type 0 where
  start : (w : World) → IsStart w → Reach p (record { world = w; sessions = [] })
  next : (s t : System) → Reach p s → Step p s t → Reach p t
